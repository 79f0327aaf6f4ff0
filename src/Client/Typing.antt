-- ===== src/Client/Typing.antt =====
-- The delivery address that `submitOrder` of client/client.c asks for.
use os_tp.Base.{
  ℕ, zero, suc, ◌+◌, ◌≤◌, ◌<◌, ◌≡◌, ◌≢◌, refl, inl, inr, Bool, true, false, ◌&&◌, List, [], ◌∷◌,
  ◌++◌, arith, All, Bytes, length, length-append, ok, ◌==◌, Bool-cases,
}
use os_tp.Terminal.{drain}
use os_tp.Client.{is_address_byte, read_chars, address_loop, read_address}

-- A line of letters, digits and blanks for which there is room.
abbrev pub acceptable : ℕ → Bytes → Bool
acceptable zero l = false
acceptable (suc room) [] = true
acceptable (suc room) (c ∷ l) = is_address_byte c && acceptable room l

abbrev pub IsLine : Bytes → Type 0
IsLine l = All (λ c. c ≢ 10) l

drain-line : (l s : Bytes) → IsLine l → drain (l ++ 10 ∷ s) ≡ ok s
unfolding drain
drain-line [] s h = refl
drain-line (c ∷ l) s h = ground (arith, h.0, drain-line l s h.1)

read_chars-acceptable :
    (room : ℕ) (l s : Bytes)
    → IsLine l
    → acceptable room l ≡ true
    → read_chars room (l ++ 10 ∷ s) ≡ (l, true, s)
unfolding read_chars
read_chars-acceptable zero l s h a = cc
read_chars-acceptable (suc room) [] s h a = refl
read_chars-acceptable (suc room) (c ∷ l) s h a =
    let byte : is_address_byte c ≡ true = ground (arith, a) in
    let later : acceptable room l ≡ true = ground (arith, a) in
    let other : (c == 10) ≡ false = ground (arith, h.0) in
    rw (read_chars-acceptable room l s h.1 later, other, byte) refl

-- Another line is not ended, and what is left of it is drained.
pub data Stops (room : ℕ) (l s : Bytes) : Type 0 where
  stops :
      (chars left : Bytes)
      → IsLine left
      → read_chars room (l ++ 10 ∷ s) ≡ (chars, false, left ++ 10 ∷ s)
      → Stops room l s

read_chars-Stops : (room : ℕ) (l s : Bytes) → IsLine l → acceptable room l ≡ false → Stops room l s
unfolding read_chars
read_chars-Stops zero l s h a = stops [] l h refl
read_chars-Stops (suc room) [] s h a = cc
read_chars-Stops (suc room) (c ∷ l) s h a =
    let other : (c == 10) ≡ false = ground (arith, h.0) in
    elim (Bool-cases (is_address_byte c)) [
      | inr wrong ↦ stops [] l h.1 (rw (other, wrong) refl)
      | inl byte ↦ elim (read_chars-Stops room l s h.1 (ground (arith, a, byte))) [
        | stops chars left is ran ↦ stops (c ∷ chars) left is (rw (other, byte, ran) refl)
      ]
    ]

-- Lines, each with its line feed.
abbrev pub typed : List Bytes → Bytes → Bytes
typed [] s = s
typed (l ∷ ls) s = l ++ 10 ∷ typed ls s

abbrev pub IsRefused : Bytes → Type 0
IsRefused l = IsLine l × (acceptable 1023 l ≡ false)

address_loop-lines :
    (ls : List Bytes) (l s : Bytes) (rounds : ℕ)
    → length ls < rounds
    → All IsRefused ls
    → IsLine l
    → acceptable 1023 l ≡ true
    → address_loop rounds (typed ls (l ++ 10 ∷ s)) ≡ ok (l, s)
unfolding address_loop
address_loop-lines ls l s zero enough h is a = absurd (omega arith)
address_loop-lines [] l s (suc rounds) enough h is a = rw (read_chars-acceptable 1023 l s is a) refl
address_loop-lines (bad ∷ ls) l s (suc rounds) enough h is a =
    elim (read_chars-Stops 1023 bad (typed ls (l ++ 10 ∷ s)) h.0.0 h.0.1) [
      | stops chars left is_left ran ↦
          rw (ran, drain-line left (typed ls (l ++ 10 ∷ s)) is_left)
            (address_loop-lines ls l s rounds (omega arith) h.1 is a)
    ]

length-typed : (ls : List Bytes) (s : Bytes) → length ls + length s ≤ length (typed ls s)
length-typed [] s = omega arith
length-typed (l ∷ ls) s = omega (arith, length-append l (10 ∷ typed ls s), length-typed ls s)

-- The client asks for the address until a line is one: it takes the first line that has only letters,
-- digits and blanks, and at most 1022 of them, just as it was typed and with a terminator, passes over
-- any number of other lines before it, and leaves what was typed behind it.
pub read_address-lines :
    (ls : List Bytes) (l s : Bytes)
    → All IsRefused ls
    → IsLine l
    → acceptable 1023 l ≡ true
    → read_address (typed ls (l ++ 10 ∷ s)) ≡ ok (l ++ 0 ∷ [], s)
unfolding read_address
read_address-lines ls l s h is a =
    rw
      (address_loop-lines ls l s (suc (length (typed ls (l ++ 10 ∷ s))))
        (omega (arith, length-typed ls (l ++ 10 ∷ s))) h is a)
      refl
