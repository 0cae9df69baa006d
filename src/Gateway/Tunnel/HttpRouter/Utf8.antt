-- ===== src/Gateway/Tunnel/HttpRouter/Utf8.antt =====
-- `std::str::from_utf8`, the code points of well-formed bytes, and the bytes of a text.
use codeless_workspace.Base.{
  ℕ, zero, suc, ◌+◌, ◌-◌, ◌*◌, ◌/◌, ◌%◌, ◌^◌, ◌++◌, ◌<◌, ◌≡◌, refl, true, ◌&&◌, Option, none, some,
  List, [], ◌∷◌, arith, ltb, leb, ◌==◌, if◌then◌else◌, Text, All, ◌>>=?◌,
}

-- What a first byte asks for: how many more, the range of the next one, and its own bits.
unfoldable pub lead : ℕ → Option (ℕ × ℕ × ℕ × ℕ)
lead b =
    if ltb b 128
    then some (0, 128, 191, b)
    else if ltb b 194
    then none
    else if ltb b 224
    then some (1, 128, 191, b - 192)
    else if b == 224
    then some (2, 160, 191, 0)
    else if b == 237
    then some (2, 128, 159, 13)
    else if ltb b 240
    then some (2, 128, 191, b - 224)
    else if b == 240
    then some (3, 144, 191, 0)
    else if ltb b 244
    then some (3, 128, 191, b - 240)
    else if b == 244
    then some (3, 128, 143, 4)
    else none

-- How many bytes are still to come, the range of the next, and the bits so far.
abbrev pub Pending : Type 0
Pending = ℕ × ℕ × ℕ × ℕ

-- A byte that begins: the code point that it is, or what it waits for.
begun : Option Pending → Option (Option ℕ × Pending)
begun none = none
begun (some (zero, lo, hi, acc)) = some (some acc, (0, 128, 191, 0))
begun (some (suc n, lo, hi, acc)) = some (none, (suc n, lo, hi, acc))

step : Pending → ℕ → Option (Option ℕ × Pending)
unfolding lead begun
step (zero, lo, hi, acc) b = begun (lead b)
step (suc zero, lo, hi, acc) b =
    if leb lo b && leb b hi then some (some (acc * 64 + (b - 128)), (0, 128, 191, 0)) else none
step (suc (suc n), lo, hi, acc) b =
    if leb lo b && leb b hi then some (none, (suc n, 128, 191, acc * 64 + (b - 128))) else none

emit : Option ℕ → Option Text → Option Text
emit none o = o
emit (some c) none = none
emit (some c) (some s) = some (c ∷ s)

decode : List ℕ → Pending → Option Text
unfolding step emit
decode [] (zero, lo, hi, acc) = some []
decode [] (suc n, lo, hi, acc) = none
decode (b ∷ bs) p = step p b >>=? λ (c, q). emit c (decode bs q)

unfoldable pub from_utf8 : List ℕ → Option Text
unfolding decode
from_utf8 bs = decode bs (0, 128, 191, 0)

decode_ascii : (bs : List ℕ) → All (λ b. b < 128) bs → decode bs (0, 128, 191, 0) ≡ some bs
unfolding decode
decode_ascii [] h = refl
decode_ascii (b ∷ bs) h = rw (ltb_true b h.0, decode_ascii bs h.1) refl
  where
    ltb_true : (b : ℕ) → b < 128 → ltb b 128 ≡ true
    ltb_true b k = ground (arith, k)

-- ASCII bytes are their own text.
pub from_utf8_ascii : (bs : List ℕ) → All (λ b. b < 128) bs → from_utf8 bs ≡ some bs
unfolding from_utf8
from_utf8_ascii bs h = decode_ascii bs h

-- A byte after the first, with the six bits of `c` above `2 ^ n`.
continuation : ℕ → ℕ → ℕ
continuation n c = 128 + c / 2 ^ n % 64

-- The bytes of a code point.
encode_utf8 : ℕ → List ℕ
unfolding continuation
encode_utf8 c =
    if ltb c 128
    then c ∷ []
    else if ltb c 2048
    then (192 + c / 64) ∷ continuation 0 c ∷ []
    else if ltb c 65536
    then (224 + c / 4096) ∷ continuation 6 c ∷ continuation 0 c ∷ []
    else (240 + c / 262144) ∷ continuation 12 c ∷ continuation 6 c ∷ continuation 0 c ∷ []

-- The bytes of a text, as the database holds them.
unfoldable pub to_utf8 : Text → List ℕ
unfolding encode_utf8
to_utf8 [] = []
to_utf8 (c ∷ s) = encode_utf8 c ++ to_utf8 s
