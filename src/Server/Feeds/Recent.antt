-- ===== src/Server/Feeds/Recent.antt =====
-- server.py: a bounded list against the list of all that was ever appended.
use hermes_k2_monitor.Prelude.{
  ℕ, suc, zero, ◌-◌, ◌≤◌, ◌<◌, ◌≡◌, refl, sym, ap, ◌∙◌, List, [], ◌∷◌, ◌++◌, arith, ltb, min,
  length, drop, length-append, append_assoc, append-nil, Bool-cases, inl, inr, length-drop,
}
use hermes_k2_monitor.Server.Feeds.{push, push_all}

-- The list is the end of all that was appended: at least `keep` entries or all, and at most `limit`.
pub record Shows {ℓ} {A : Type ℓ} (limit keep : ℕ) (all shown : List A) : Type ℓ where
  pub gone : List A
  pub suffix : all ≡ gone ++ shown
  pub enough : min keep (length all) ≤ length shown
  pub within : length shown ≤ limit

split_drop {ℓ} : {A : Type ℓ} (n : ℕ) (xs : List A) → (front : List A) × (xs ≡ front ++ drop n xs)
split_drop zero xs = ([], refl)
split_drop (suc n) [] = ([], refl)
split_drop (suc n) (x ∷ xs) = let (front, e) = split_drop n xs in (x ∷ front, ap (λ ys. x ∷ ys) e)

module _ {ℓ} {A : Type ℓ} (bound limit keep : ℕ) (positive : 0 < keep) (fits : keep ≤ limit)
    (bounded : limit ≤ bound) where
  pub push-Shows :
      (x : A) (all shown : List A)
      → Shows bound keep all shown
      → Shows bound keep (all ++ x ∷ []) (push limit keep x shown)
  unfolding push
  push-Shows x all shown s =
      let ys = shown ++ x ∷ [] in
      let e : all ++ x ∷ [] ≡ s.gone ++ ys =
        ap (λ zs. zs ++ x ∷ []) s.suffix ∙ append_assoc s.gone shown (x ∷ []) in
      let n : length ys ≡ suc (length shown) = omega (arith, length-append shown (x ∷ [])) in
      let m : length (all ++ x ∷ []) ≡ suc (length all) =
        omega (arith, length-append all (x ∷ [])) in
      elim (Bool-cases (ltb limit (length ys))) [
        | inl long ↦
            let k = length ys - keep in
            let (front, f) = split_drop k ys in
            let d : length (drop k ys) ≡ length ys - k = length-drop k ys in
            rw (push, long)
              (record {
                gone = s.gone ++ front;
                suffix =
                    e ∙ ap (λ zs. s.gone ++ zs) f ∙ sym (append_assoc s.gone front (drop k ys));
                enough = ground (arith, d, n, m);
                within = ground (arith, d, n);
              })
        | inr short ↦
            rw (push, short)
              (record {
                gone = s.gone;
                suffix = e;
                enough = ground (arith, n, m, s.enough);
                within = ground (arith, n);
              })
      ]

  push_all-from :
      (xs all shown : List A)
      → Shows bound keep all shown
      → Shows bound keep (all ++ xs) (push_all limit keep xs shown)
  unfolding push_all
  push_all-from [] all shown s = rw append-nil s
  push_all-from (x ∷ xs) all shown s =
      rw (← append_assoc all (x ∷ []) xs)
        (push_all-from xs (all ++ x ∷ []) (push limit keep x shown) (push-Shows x all shown s))

-- Whatever is appended, from a list within its limit on: what is shown is the end of all that was
-- there and was appended, with at least the newest `keep` entries (or all of them), and never more
-- than `limit`.
pub push_all-Shows {ℓ} :
    {A : Type ℓ} (limit keep : ℕ) (xs old : List A)
    → 0 < keep
    → keep ≤ limit
    → length old ≤ limit
    → Shows limit keep (old ++ xs) (push_all limit keep xs old)
push_all-Shows limit keep xs old p f w =
    push_all-from limit limit keep p f (omega arith) xs old old
      (record { gone = []; suffix = refl; enough = ground arith; within = w })
