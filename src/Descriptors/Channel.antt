-- ===== src/Descriptors/Channel.antt =====
-- Two descriptors that a process uses together: it reads from one and writes to the other.
use os_tp.Base.{
  ℕ, ◌≤◌, ◌<◌, ◌≡◌, ◌≢◌, refl, ap, true, some, [], ◌++◌, Bytes, length, take, ok, ◌∙◌, ◌^◌,
}
use os_tp.Descriptors.{Posix, ensure_read, ensure_write}
use os_tp.Descriptors.Streams.{Stream, Sink}
use os_tp.Descriptors.Read.{ensure_read-delivers}
use os_tp.Descriptors.Write.{ensure_write-accepts}

-- `State w coming gone`: what is on its way to the process, and what the process has written. What
-- POSIX says of each descriptor, and that they are not the same: reading from one leaves alone what
-- was written to the other, and writing what is on its way.
pub record Channel (P : Posix) (in_fd out_fd : ℕ) : Type 1 where
  pub State : P.World → Bytes → Bytes → Type 0
  pub delivers :
      (w : P.World) (n : ℕ) (coming gone : Bytes)
      → State w coming gone
      → 0 < n
      → coming ≢ []
      → (chunk : Bytes) × (rest : Bytes) × (w' : P.World) × (P.read in_fd n w ≡ (some chunk, w'))
        × (coming ≡ chunk ++ rest)
        × (0 < length chunk)
        × (length chunk ≤ n)
        × State w' rest gone
  pub accepts :
      (w : P.World) (coming gone src : Bytes)
      → State w coming gone
      → src ≢ []
      → (count : ℕ) × (w' : P.World) × (P.write out_fd src w ≡ (some count, w'))
        × (0 < count)
        × (count ≤ length src)
        × State w' coming (gone ++ take count src)

module _ (P : Posix) (in_fd out_fd : ℕ) (channel : Channel P in_fd out_fd) where
  open channel use {State, delivers, accepts}

  abbrev pub reading : Bytes → Stream P
  reading gone = record {
    Holds = λ w fd coming. (fd ≡ in_fd) × State w coming gone;
    delivers = λ w fd n coming held more ne.
        let (chunk, rest, w', ran, is, some_came, fits, held') =
          delivers w n coming gone held.1 more ne in
        (
          chunk,
          rest,
          w',
          ap (λ f. P.read f n w) held.0 ∙ ran,
          is,
          some_came,
          fits,
          (held.0, held'),
        );
  }

  abbrev pub writing : Bytes → Sink P
  writing coming = record {
    Wrote = λ w fd gone. (fd ≡ out_fd) × State w coming gone;
    accepts = λ w fd gone src held ne.
        let (count, w', ran, some_went, fits, held') = accepts w coming gone src held.1 ne in
        (count, w', ap (λ f. P.write f src w) held.0 ∙ ran, some_went, fits, (held.0, held'));
  }

  pub receives :
      (rounds : ℕ) (x rest gone : Bytes) (w : P.World)
      → length x < rounds
      → length x < 2 ^ 31
      → State w (x ++ rest) gone
      → (w' : P.World) × (ensure_read P rounds (length x) in_fd w ≡ ok ((true, x), w'))
        × State w' rest gone
  receives rounds x rest gone w enough small held =
      let (w', ran, held') =
        ensure_read-delivers P (reading gone) rounds in_fd x rest w enough small (refl, held) in
      (w', ran, held'.1)

  pub sends :
      (rounds : ℕ) (x coming gone : Bytes) (w : P.World)
      → length x < rounds
      → length x < 2 ^ 31
      → State w coming gone
      → (w' : P.World) × (ensure_write P rounds x out_fd w ≡ ok (true, w'))
        × State w' coming (gone ++ x)
  sends rounds x coming gone w enough small held =
      let (w', ran, held') =
        ensure_write-accepts P (writing coming) rounds out_fd x gone w enough small (refl, held) in
      (w', ran, held'.1)

-- The same for a predicate on the world that says more.
pub record Links (P : Posix) (in_fd out_fd : ℕ) (State : P.World → Bytes → Bytes → Type 0)
    : Type 0 where
  pub link_delivers :
      (w : P.World) (n : ℕ) (coming gone : Bytes)
      → State w coming gone
      → 0 < n
      → coming ≢ []
      → (chunk : Bytes) × (rest : Bytes) × (w' : P.World) × (P.read in_fd n w ≡ (some chunk, w'))
        × (coming ≡ chunk ++ rest)
        × (0 < length chunk)
        × (length chunk ≤ n)
        × State w' rest gone
  pub link_accepts :
      (w : P.World) (coming gone src : Bytes)
      → State w coming gone
      → src ≢ []
      → (count : ℕ) × (w' : P.World) × (P.write out_fd src w ≡ (some count, w'))
        × (0 < count)
        × (count ≤ length src)
        × State w' coming (gone ++ take count src)

abbrev pub channel_of :
    {P : Posix} {in_fd out_fd : ℕ} (State : P.World → Bytes → Bytes → Type 0)
    → Links P in_fd out_fd State
    → Channel P in_fd out_fd
channel_of State links = record {
  State = State;
  delivers = links.link_delivers;
  accepts = links.link_accepts;
}
