-- ===== src/Tests/Wires.antt =====
-- Two pairs of pipes that move one byte at a time: 0 and 1 lead to the client, 2 and 3 to the
-- database server of server/forkedServer.c.
use os_tp.Base.{
  ℕ, zero, suc, ◌≤◌, ◌<◌, ◌≡◌, ◌≢◌, refl, ap, Option, some, [], ◌∷◌, ◌++◌, arith, Bytes, length,
  take, ◌==◌, if◌then◌else◌,
}
use os_tp.Descriptors.{Posix}
use os_tp.Descriptors.Channel.{Links}
use os_tp.Forked.{Ends}
use os_tp.Forked.Wires.{Wires}

abbrev pub Four : Type 0
Four = Bytes × Bytes × Bytes × Bytes

abbrev pop : Bytes → Option Bytes × Bytes
pop [] = (some [], [])
pop (b ∷ s) = (some (b ∷ []), s)

abbrev four_read : ℕ → ℕ → Four → Option Bytes × Four
four_read fd zero w = (some [], w)
four_read fd (suc n) (ci, co, di, do') =
    if fd == 0
    then ((pop ci).0, ((pop ci).1, co, di, do'))
    else ((pop di).0, (ci, co, (pop di).1, do'))

abbrev four_write : ℕ → Bytes → Four → Option ℕ × Four
four_write fd [] w = (some 0, w)
four_write fd (b ∷ src) (cc, cg, dc, dg) =
    if fd == 1 then (some 1, (cc, cg ++ b ∷ [], dc, dg)) else (some 1, (cc, cg, dc, dg ++ b ∷ []))

abbrev pub four : Posix
four = record { World = Four; read = four_read; write = four_write }

abbrev pub ends : Ends
ends = record { client_in = 0; client_out = 1; db_in = 2; db_out = 3 }

abbrev pub Holding : Four → Bytes → Bytes → Bytes → Bytes → Type 0
Holding w cc cg dc dg = w ≡ (cc, cg, dc, dg)

pub client_links : (dc dg : Bytes) → Links four 0 1 (λ w c g. Holding w c g dc dg)
client_links dc dg = record { link_delivers = comes; link_accepts = goes }
  where
    comes :
        (w : Four) (n : ℕ) (c g : Bytes)
        → w ≡ (c, g, dc, dg)
        → 0 < n
        → c ≢ []
        → (chunk : Bytes) × (rest : Bytes) × (w' : Four) × (four_read 0 n w ≡ (some chunk, w'))
          × (c ≡ chunk ++ rest)
          × (0 < length chunk)
          × (length chunk ≤ n)
          × (w' ≡ (rest, g, dc, dg))
    comes w n [] g e h ne = absurd (ne refl)
    comes w zero (b ∷ s) g e h ne = elim h [ ]
    comes w (suc n) (b ∷ s) g e h ne = (
      b ∷ [],
      s,
      (s, g, dc, dg),
      ap (four_read 0 (suc n)) e,
      refl,
      omega arith,
      omega arith,
      refl,
    )

    goes :
        (w : Four) (c g src : Bytes)
        → w ≡ (c, g, dc, dg)
        → src ≢ []
        → (count : ℕ) × (w' : Four) × (four_write 1 src w ≡ (some count, w'))
          × (0 < count)
          × (count ≤ length src)
          × (w' ≡ (c, g ++ take count src, dc, dg))
    goes w c g [] e ne = absurd (ne refl)
    goes w c g (b ∷ src) e ne =
        (1, (c, g ++ b ∷ [], dc, dg), ap (four_write 1 (b ∷ src)) e, omega arith, omega arith, refl)

pub db_links : (cc cg : Bytes) → Links four 2 3 (λ w c g. Holding w cc cg c g)
db_links cc cg = record { link_delivers = comes; link_accepts = goes }
  where
    comes :
        (w : Four) (n : ℕ) (c g : Bytes)
        → w ≡ (cc, cg, c, g)
        → 0 < n
        → c ≢ []
        → (chunk : Bytes) × (rest : Bytes) × (w' : Four) × (four_read 2 n w ≡ (some chunk, w'))
          × (c ≡ chunk ++ rest)
          × (0 < length chunk)
          × (length chunk ≤ n)
          × (w' ≡ (cc, cg, rest, g))
    comes w n [] g e h ne = absurd (ne refl)
    comes w zero (b ∷ s) g e h ne = elim h [ ]
    comes w (suc n) (b ∷ s) g e h ne = (
      b ∷ [],
      s,
      (cc, cg, s, g),
      ap (four_read 2 (suc n)) e,
      refl,
      omega arith,
      omega arith,
      refl,
    )

    goes :
        (w : Four) (c g src : Bytes)
        → w ≡ (cc, cg, c, g)
        → src ≢ []
        → (count : ℕ) × (w' : Four) × (four_write 3 src w ≡ (some count, w'))
          × (0 < count)
          × (count ≤ length src)
          × (w' ≡ (cc, cg, c, g ++ take count src))
    goes w c g [] e ne = absurd (ne refl)
    goes w c g (b ∷ src) e ne =
        (1, (cc, cg, c, g ++ b ∷ []), ap (four_write 3 (b ∷ src)) e, omega arith, omega arith, refl)

abbrev pub wires : Wires four ends
wires = record { State = Holding; client = client_links; db = db_links }
