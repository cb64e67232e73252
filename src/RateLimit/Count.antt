-- ===== src/RateLimit/Count.antt =====
-- Counting the rows of a bucket: what the transaction of `check` finds in the table and leaves there.
use hermes_k2_monitor.Prelude.{
  ℕ, ◌+◌, ◌≤◌, ◌≡◌, refl, String, Bool, true, not, ◌&&◌, List, [], ◌∷◌, ◌++◌, arith, leb, count_if,
  keep_if,
}
use hermes_k2_monitor.RateLimit.{Hit, expired, in_bucket}

-- The hits of a bucket between two instants, both included.
abbrev pub between : String → ℕ → ℕ → Hit → Bool
between b from to h = in_bucket b h && (leb from h.hit_at && leb h.hit_at to)

-- The rows that the DELETE of a `check` at `now` leaves of a list of hits.
abbrev pub live : ℕ → ℕ → List Hit → List Hit
live span now hits = keep_if (λ h. not (expired span now h)) hits

module _ {ℓ} {A : Type ℓ} (p q : A → Bool) where
  pub count_if-le :
      ((x : A) → p x ≡ true → q x ≡ true) → (xs : List A) → count_if p xs ≤ count_if q xs
  count_if-le imp [] = omega arith
  count_if-le imp (x ∷ xs) = ground (arith, imp x, count_if-le imp xs)

-- A hit in a window that reaches `now` is not expired at `now`.
pub between-le-live :
    (span : ℕ) (b : String) (t now : ℕ) (hits : List Hit)
    → now ≤ t + span
    → count_if (between b t (t + span)) hits ≤ count_if (in_bucket b) (live span now hits)
between-le-live span b t now [] h = omega arith
between-le-live span b t now (x ∷ hits) h = ground (arith, between-le-live span b t now hits h)

-- A later DELETE leaves what it would leave of the whole history.
pub live-live :
    (span t now : ℕ) (hits : List Hit)
    → t ≤ now
    → live span now (live span t hits) ≡ live span now hits
live-live span t now [] h = refl
live-live span t now (x ∷ hits) h = ground (arith, live-live span t now hits h)

-- A hit of this instant is not expired.
pub live-append_now :
    (span now : ℕ) (b : String) (hits : List Hit)
    → live span now (hits ++ record { bucket = b; hit_at = now } ∷ [])
      ≡ live span now hits ++ record { bucket = b; hit_at = now } ∷ []
live-append_now span now b [] = ground arith
live-append_now span now b (x ∷ hits) = ground (arith, live-append_now span now b hits)
