-- ===== src/Database/Store/Queries.antt =====
-- Printing one part behind the other into the buffer of `store_verified_order`.
use os_tp.Base.{
  ℕ, suc, ◌+◌, ◌-◌, ◌<◌, ◌≡◌, ◌≢◌, refl, ap, ◌∙◌, [], ◌∷◌, ◌++◌, append_assoc, arith, Bytes, length,
  length-append, All-append, ℤ, IsInt, of_word-to_word, ok,
}
use os_tp.Memory.{text_of, memcpy}
use os_tp.Memory.Laws.{text_of-append, IsText, memcpy-append, split_at}
use os_tp.Decimal.{print_int, count_digits}
use os_tp.Decimal.Texts.{print_int-IsText}
use os_tp.Decimal.Laws.{count_digits-eq-length}
use os_tp.Database.Store.{narrow, print_at}

-- The front of the buffer of `size` bytes is `pre`.
pub record Printed (pre : Bytes) (size : ℕ) (query : Bytes) : Type 0 where
  pub rest : Bytes
  pub query_is : query ≡ pre ++ rest
  pub size_is : length query ≡ size

Printed-rest :
    {pre query : Bytes} {size : ℕ} (p : Printed pre size query) → length pre + length p.rest ≡ size
Printed-rest {pre} p = omega (arith, p.size_is, ap length p.query_is, length-append pre p.rest)

regroup : (a b c : Bytes) → a ++ ((b ++ 0 ∷ []) ++ c) ≡ (a ++ b) ++ 0 ∷ c
regroup a b c = simp append_assoc

-- Writing over a part of known length.
memcpy-part :
    (pre old rest new : Bytes) {query : Bytes} {index : ℕ}
    → query ≡ pre ++ (old ++ rest)
    → index ≡ length pre
    → length old ≡ length new
    → memcpy query index new ≡ ok (pre ++ (new ++ rest))
memcpy-part pre old rest new {query} {index} is at same =
    ap (λ q. memcpy q index new) is
    ∙ ap (λ i. memcpy (pre ++ (old ++ rest)) i new) at
    ∙ memcpy-append pre old new rest same

-- Printing behind the front, where the text and its terminator fit.
pub print_at-Printed :
    (pre text : Bytes) (index size : ℕ) {query : Bytes}
    → index ≡ length pre
    → length pre + length text < size
    → Printed pre size query
    → (q : Bytes) × (print_at query index text ≡ ok q) × Printed (pre ++ text) size q
unfolding print_at
print_at-Printed pre text index size {query} at room p =
    let n : ℕ = size - suc (length pre + length text) in
    let (old, rest, splits, same, left) =
      split_at (length (text ++ 0 ∷ [])) n p.rest
        (omega (arith, Printed-rest p, length-append text (0 ∷ []))) in
    (
      pre ++ ((text ++ 0 ∷ []) ++ rest),
      memcpy-part pre old rest (text ++ 0 ∷ []) (p.query_is ∙ ap (◌++◌ pre) splits) at same,
      record {
        rest = 0 ∷ rest;
        query_is = regroup pre text rest;
        size_is = omega (
          arith,
          length-append pre ((text ++ 0 ∷ []) ++ rest),
          length-append (text ++ 0 ∷ []) rest,
          length-append text (0 ∷ []),
          left,
        );
      },
    )

-- The last terminator, and the text that then stands in the buffer.
terminate :
    (pre : Bytes) (index size : ℕ) {query : Bytes}
    → index ≡ length pre
    → length pre < size
    → IsText pre
    → Printed pre size query
    → (q : Bytes) × (memcpy query index (0 ∷ []) ≡ ok q) × (text_of q ≡ ok pre) × (length q ≡ size)
terminate pre index size {query} at room h p =
    let (old, rest, splits, same, left) =
      split_at 1 (size - suc (length pre)) p.rest (omega (arith, Printed-rest p)) in
    (
      pre ++ (0 ∷ rest),
      memcpy-part pre old rest (0 ∷ []) (p.query_is ∙ ap (◌++◌ pre) splits) at same,
      text_of-append pre rest h,
      omega (arith, length-append pre (0 ∷ rest), left),
    )

pub narrow-eq_self : (z : ℤ) → IsInt z → narrow z ≡ z
narrow-eq_self z h = of_word-to_word z h

-- Four parts printed one behind the other, where each lies where the one before ends.
pub print_four :
    (query a b c d : Bytes) (i j k size : ℕ)
    → length query ≡ size
    → i ≡ length a
    → j ≡ i + length b
    → k ≡ j + length c
    → length a + length b + length c + length d < size
    → IsText a
    → IsText b
    → IsText c
    → IsText d
    → (q1 : Bytes) × (q2 : Bytes) × (q3 : Bytes) × (q4 : Bytes) × (q5 : Bytes) × (print_at query 0 a
        ≡ ok q1)
      × (print_at q1 i b ≡ ok q2)
      × (print_at q2 j c ≡ ok q3)
      × (print_at q3 k d ≡ ok q4)
      × (memcpy q4 (k + length d) (0 ∷ []) ≡ ok q5)
      × (text_of q5 ≡ ok (((a ++ b) ++ c) ++ d))
      × (length q5 ≡ size)
print_four query a b c d i j k size size_is at2 at3 at4 room ha hb hc hd =
    let ab = length-append a b in
    let abc = length-append (a ++ b) c in
    let abcd = length-append ((a ++ b) ++ c) d in
    let (q1, r1, p1) =
      print_at-Printed [] a 0 size refl (omega arith)
        (record { rest = query; query_is = refl; size_is = size_is }) in
    let (q2, r2, p2) = print_at-Printed a b i size at2 (omega arith) p1 in
    let (q3, r3, p3) =
      print_at-Printed (a ++ b) c j size (omega (arith, ab)) (omega (arith, ab)) p2 in
    let (q4, r4, p4) =
      print_at-Printed ((a ++ b) ++ c) d k size (omega (arith, ab, abc)) (omega (arith, ab, abc))
        p3 in
    let (q5, r5, text, size5) =
      terminate (((a ++ b) ++ c) ++ d) (k + length d) size (omega (arith, ab, abc, abcd))
        (omega (arith, ab, abc, abcd))
        (All-append _ ((a ++ b) ++ c) d (All-append _ (a ++ b) c (All-append _ a b ha hb) hc) hd)
        p4 in
    (q1, q2, q3, q4, q5, r1, r2, r3, r4, r5, text, size5)

-- A number and a byte behind it.
pub number_then-IsText : (z : ℤ) (c : ℕ) → c ≢ 0 → IsText (print_int z ++ c ∷ [])
number_then-IsText z c h = All-append _ (print_int z) (c ∷ []) (print_int-IsText z) (h, tt)

pub length-number_then : (z : ℤ) (c : ℕ) → length (print_int z ++ c ∷ []) ≡ count_digits z + 1
length-number_then z c =
    omega (arith, count_digits-eq-length z, length-append (print_int z) (c ∷ []))
