-- ===== src/Server/Feeds.antt =====
-- server.py: the lists that the dashboard shows, `append_discussion` and `_record_collab_activity`.
pub mod Recent
use hermes_k2_monitor.Prelude.{ℕ, List, [], ◌∷◌, ◌++◌, ltb, if◌then◌else◌, length, last_n}

-- `xs.append(x)`, and once the list is longer than `limit` only its last `keep` entries stay
unfoldable pub push {ℓ} : {A : Type ℓ} → ℕ → ℕ → A → List A → List A
push limit keep x xs = let ys = xs ++ x ∷ [] in if ltb limit (length ys) then last_n keep ys else ys

-- `state["discussion"]` in `append_discussion`
abbrev pub push_discussion {ℓ} : {A : Type ℓ} → A → List A → List A
push_discussion = push 200 100

-- `collab_activity` in `_record_collab_activity`
abbrev pub push_activity {ℓ} : {A : Type ℓ} → A → List A → List A
push_activity = push 160 120

-- The entries in a row, from the list of before.
pub push_all {ℓ} : {A : Type ℓ} → ℕ → ℕ → List A → List A → List A
push_all limit keep [] old = old
push_all limit keep (x ∷ xs) old = push_all limit keep xs (push limit keep x old)
