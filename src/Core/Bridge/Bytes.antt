-- ===== src/Core/Bridge/Bytes.antt =====
-- What a pair of pumps does to the bytes of a stream. A put reaches the subscriber only if it follows
-- the subscription.
use codeless_workspace.Base.{
  ℕ, zero, suc, ◌+◌, ◌≤◌, ◌≡◌, refl, sym, ap, Bool, true, false, List, [], ◌∷◌, ◌++◌, arith, Text,
  All, length, length-append, drop,
}
use codeless_workspace.Core.Bridge.{ReadResult, pump_up, pump_down, read, failed, closing}

-- All the bytes of a sequence of chunks.
unfoldable pub concat : List Text → Text
concat [] = []
concat (c ∷ cs) = c ++ concat cs

-- The end of the file, or an error.
unfoldable pub is_end : ReadResult → Bool
is_end (read []) = true
is_end (read (b ∷ bytes)) = false
is_end failed = true

-- Reads of these chunks, with every put going out.
unfoldable pub reads_of : List Text → List (ReadResult × Bool)
reads_of [] = []
reads_of (c ∷ cs) = (read c, true) ∷ reads_of cs

-- Samples of these messages, with every write succeeding.
unfoldable pub received : List Text → List (Text × Bool)
received [] = []
received (m ∷ ms) = (m, true) ∷ received ms

-- A chunk of data: a read that is not the end.
unfoldable pub is_data : Text → Bool
is_data [] = false
is_data (b ∷ bytes) = true

-- The chunks that the socket gave before its end, whatever became of them.
chunks_read : List (ReadResult × Bool) → List Text
chunks_read [] = []
chunks_read ((read [], sent) ∷ reads) = []
chunks_read ((failed, sent) ∷ reads) = []
chunks_read ((read (b ∷ bytes), sent) ∷ reads) = (b ∷ bytes) ∷ chunks_read reads

-- What becomes of a message that was put: it reaches no subscriber, or it is received, with whether
-- its write succeeds.
data Fate : Type 0 where
  lost : Fate
  taken : Bool → Fate

-- The samples that have arrived, of messages whose fates are known.
arriving : List Text → List Fate → List (Text × Bool)
arriving [] fates = []
arriving (m ∷ ms) [] = []
arriving (m ∷ ms) (lost ∷ fates) = arriving ms fates
arriving (m ∷ ms) (taken written ∷ fates) = (m, written) ∷ arriving ms fates

-- The first list is the second with elements left out.
data Sublist : List Text → List Text → Type 0 where
  nothing : Sublist [] []
  keeps : {c : Text} {cs ds : List Text} → Sublist cs ds → Sublist (c ∷ cs) (c ∷ ds)
  omits : {c : Text} {cs ds : List Text} → Sublist cs ds → Sublist cs (c ∷ ds)

closed-pumps :
    (e : ReadResult) (later : List (ReadResult × Bool)) (late : List Text)
    → is_end e ≡ true
    → (pump_down (received ((pump_up ((e, true) ∷ later)).0 ++ late)) ≡ ([], 0))
      × ((pump_up ((e, true) ∷ later)).1 ≡ 0)
unfolding pump_up pump_down closing received is_end
closed-pumps (read []) later late h = (refl, refl)
closed-pumps (read (b ∷ bytes)) later late h = cc
closed-pumps failed later late h = (refl, refl)

-- Nobody receives a put that precedes the subscription, although the put succeeds: a stream whose
-- other messages all arrive and whose writes succeed carries exactly the chunks read after the first
-- `early` ones, in order, where the receiver subscribes after that many puts and before the end of
-- the socket. That end closes it, so that nothing after it is written, and no chunk of data is
-- mistaken for the close. The sender counts all bytes read, the receiver those that it writes.
pub pump_down-pump_up :
    (chunks : List Text)
    → All (λ c. is_data c ≡ true) chunks
    → (e : ReadResult) (later : List (ReadResult × Bool)) (late : List Text) (early : ℕ)
    → is_end e ≡ true
    → early ≤ length chunks
    → (pump_down
          (received (drop early ((pump_up (reads_of chunks ++ (e, true) ∷ later)).0 ++ late)))
        ≡ (drop early chunks, length (concat (drop early chunks))))
      × ((pump_up (reads_of chunks ++ (e, true) ∷ later)).1 ≡ length (concat chunks))
unfolding pump_up pump_down received reads_of concat is_data
pump_down-pump_up [] h e later late zero ends few = closed-pumps e later late ends
pump_down-pump_up [] h e later late (suc early) ends few = absurd (omega (arith, few))
pump_down-pump_up ([] ∷ cs) (h, hs) e later late early ends few = cc
pump_down-pump_up ((b ∷ bytes) ∷ cs) (h, hs) e later late zero ends few =
    let (sent, count) = pump_down-pump_up cs hs e later late zero ends (omega arith) in
    let total : length ((b ∷ bytes) ++ concat cs) ≡ length (b ∷ bytes) + length (concat cs) =
      length-append (b ∷ bytes) (concat cs) in
    (rw sent (ap (λ n. ((b ∷ bytes) ∷ cs, n)) (sym total)), rw count (sym total))
pump_down-pump_up ((b ∷ bytes) ∷ cs) (h, hs) e later late (suc early) ends few =
    let (sent, count) = pump_down-pump_up cs hs e later late early ends (omega (arith, few)) in
    (sent, rw count (sym (length-append (b ∷ bytes) (concat cs))))

-- Every chunk left out.
omits_all : (ds : List Text) → Sublist [] ds
omits_all [] = nothing
omits_all (d ∷ ds) = omits (omits_all ds)

-- Whatever puts and writes fail, whatever messages reach no subscriber, and however many have
-- arrived: what is written are chunks that were read, whole and in the order of the reads, none of
-- them twice; the receiver counts at least the bytes written and at most those that the sender
-- counts.
pump_down-Sublist :
    (reads : List (ReadResult × Bool)) (fates : List Fate)
    → Sublist (pump_down (arriving (pump_up reads).0 fates)).0 (chunks_read reads)
      × (length (concat (pump_down (arriving (pump_up reads).0 fates)).0)
          ≤ (pump_down (arriving (pump_up reads).0 fates)).1)
      × ((pump_down (arriving (pump_up reads).0 fates)).1 ≤ (pump_up reads).1)
unfolding pump_up pump_down arriving concat chunks_read closing
pump_down-Sublist [] fates = (nothing, omega arith, omega arith)
pump_down-Sublist ((failed, true) ∷ reads) [] = (nothing, omega arith, omega arith)
pump_down-Sublist ((failed, true) ∷ reads) (lost ∷ fates) = (nothing, omega arith, omega arith)
pump_down-Sublist ((failed, true) ∷ reads) (taken w ∷ fates) = (nothing, omega arith, omega arith)
pump_down-Sublist ((failed, false) ∷ reads) fates = (nothing, omega arith, omega arith)
pump_down-Sublist ((read [], true) ∷ reads) [] = (nothing, omega arith, omega arith)
pump_down-Sublist ((read [], true) ∷ reads) (lost ∷ fates) = (nothing, omega arith, omega arith)
pump_down-Sublist ((read [], true) ∷ reads) (taken w ∷ fates) = (nothing, omega arith, omega arith)
pump_down-Sublist ((read [], false) ∷ reads) fates = (nothing, omega arith, omega arith)
pump_down-Sublist ((read (b ∷ bytes), false) ∷ reads) fates =
    (omits (omits_all (chunks_read reads)), omega arith, omega arith)
pump_down-Sublist ((read (b ∷ bytes), true) ∷ reads) [] =
    (omits (omits_all (chunks_read reads)), omega arith, omega arith)
pump_down-Sublist ((read (b ∷ bytes), true) ∷ reads) (lost ∷ fates) =
    let (kept, least, most) = pump_down-Sublist reads fates in
    (omits kept, least, omega (arith, most))
pump_down-Sublist ((read (b ∷ bytes), true) ∷ reads) (taken false ∷ fates) =
    (omits (omits_all (chunks_read reads)), omega arith, omega arith)
pump_down-Sublist ((read (b ∷ bytes), true) ∷ reads) (taken true ∷ fates) =
    let (kept, least, most) = pump_down-Sublist reads fates in
    (
      keeps kept,
      omega (
        arith,
        least,
        length-append (b ∷ bytes) (concat (pump_down (arriving (pump_up reads).0 fates)).0),
      ),
      omega (arith, most),
    )
