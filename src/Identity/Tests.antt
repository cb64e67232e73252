-- ===== src/Identity/Tests.antt =====
-- collab/identity.py on concrete certificates.
use hermes_k2_monitor.Prelude.{ℕ, ◌≡◌, refl, String, Bool, [], str_eq, lookup, insert}
use hermes_k2_monitor.Monad.{raised}
use hermes_k2_monitor.Identity.{Identity, already_exists, invalid_node_id, is_valid_id, issue}

abbrev material : String → String → ℕ → ℕ → String
material id key issued expires = id

abbrev sign : String → String
sign m = m

abbrev check : String → String → Bool
check m s = str_eq m s

abbrev is_key : String → Bool
is_key k = str_eq k "K"

abbrev empty : Identity
empty = record { validity = 1000; nodes = []; saved = [] }

abbrev issued : Identity
issued = (issue material sign is_key 50 "node-1" "K" empty).1

issued_twice : (issue material sign is_key 60 "node-1" "K" issued).0 ≡ raised already_exists
unfolding issue is_valid_id lookup insert
issued_twice = refl

invalid_id : (issue material sign is_key 60 "node 1" "K" issued).0 ≡ raised invalid_node_id
unfolding issue is_valid_id
invalid_id = refl
