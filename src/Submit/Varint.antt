-- ===== src/Submit/Varint.antt =====
-- _varint and the request of _check_grpc in submit/services.py: protobuf's length-delimited field.
use graphed_executors.Prelude.{
  ℕ, zero, suc, ◌+◌, ◌-◌, ◌*◌, ◌/◌, ◌%◌, ◌<◌, ◌≡◌, refl, List, [], ◌∷◌, ◌++◌, Option, none, some,
  true, false, ltb, ◌==◌, if◌then◌else◌, All, arith, Bool-cases, inl, inr, length,
}

-- The loop, on fuel: n & 0x7F and n >> 7, and the bit 0x80, which the low seven have not, while more
-- follows.
unfoldable pub varint_from : ℕ → ℕ → List ℕ
varint_from zero n = []
varint_from (suc fuel) n =
    let rest = varint_from fuel (n / 128) in
    if n / 128 == 0 then n % 128 ∷ [] else (n % 128 + 128) ∷ rest

unfoldable pub varint : ℕ → List ℕ
unfolding varint_from
varint n = varint_from (suc n) n

-- The request of a health check: the field's tag, the length of the name, the name.
unfoldable pub grpc_request : List ℕ → List ℕ
unfolding varint
grpc_request [] = []
grpc_request (c ∷ name) = 10 ∷ varint (length (c ∷ name)) ++ c ∷ name

-- How protobuf reads a varint: seven bits of each byte, the last one below 128.
abbrev more_bits : ℕ → Option (ℕ × List ℕ) → Option (ℕ × List ℕ)
more_bits low none = none
more_bits low (some (high, rest)) = some (high * 128 + low, rest)

unfoldable pub read_varint : List ℕ → Option (ℕ × List ℕ)
read_varint [] = none
read_varint (b ∷ bs) =
    let high = read_varint bs in if ltb b 128 then some (b, bs) else more_bits (b - 128) high

read-varint_from :
    (fuel n : ℕ) (rest : List ℕ)
    → n < fuel
    → read_varint (varint_from fuel n ++ rest) ≡ some (n, rest)
unfolding varint_from read_varint
read-varint_from zero n rest enough = absurd (omega arith)
read-varint_from (suc fuel) n rest enough = elim (Bool-cases (n / 128 == 0)) [
  | inl last ↦
      let low : ltb (n % 128) 128 ≡ true = ground arith in
      let all : n % 128 ≡ n = ground arith in rw (last, varint_from) (rw low (rw all refl))
  | inr more ↦
      let high : ltb (n % 128 + 128) 128 ≡ false = ground arith in
      let smaller : n / 128 < fuel = ground arith in
      let value : n / 128 * 128 + (n % 128 + 128 - 128) ≡ n = omega arith in
      rw (more, varint_from)
        (rw (read-varint_from fuel (n / 128) rest smaller, high) (rw value refl))
]

varint_from_bytes : (fuel n : ℕ) → All (λ b. b < 256) (varint_from fuel n)
unfolding varint_from
varint_from_bytes zero n = tt
varint_from_bytes (suc fuel) n = elim (Bool-cases (n / 128 == 0)) [
  | inl last ↦ rw (last, varint_from) (omega arith, tt)
  | inr more ↦ rw (more, varint_from) (omega arith, varint_from_bytes fuel (n / 128))
]

-- A number's varint is bytes, and reading it back, whatever follows, gives the number and what follows.
pub read-varint :
    (n : ℕ) (rest : List ℕ)
    → (read_varint (varint n ++ rest) ≡ some (n, rest)) × All (λ b. b < 256) (varint n)
unfolding varint
read-varint n rest = (read-varint_from (suc n) n rest (omega arith), varint_from_bytes (suc n) n)
