-- ===== src/Server/Viewers/Log.antt =====
-- server.py: what the sockets of the dashboard leave of the discussion, of its log, and of the mesh.
use hermes_k2_monitor.Prelude.{
  ℕ, ◌≤◌, ◌≡◌, refl, ap, ◌∙◌, String, true, List, [], ◌∷◌, ◌++◌, Option, none, some, arith, All,
  Bool-cases, inl, inr,
}
use hermes_k2_monitor.Monad.{continue-cases, Result-cases}
use hermes_k2_monitor.Json.{Json, null, bool, num, str, arr, obj, get_field, is_text}
use hermes_k2_monitor.RateLimit.{Limiter, Decision}
use hermes_k2_monitor.Vault.{Line, blank, garbage, row}
use hermes_k2_monitor.Server.Feeds.Recent.{Shows, push-Shows}
use hermes_k2_monitor.Server.Mesh.{Outside, Mesh, Times, Route, record_activity}
use hermes_k2_monitor.Server.Viewers.{
  load_discussion, Arrival, append_discussion, decide_viewer, limit_viewer, take_message,
  unless_limited, on_frame, ws_loop, discuss,
}

load_discussion-append :
    (ls : List Line) (v : Json) → load_discussion (ls ++ row v ∷ []) ≡ load_discussion ls ++ v ∷ []
unfolding load_discussion
load_discussion-append [] v = refl
load_discussion-append (blank ∷ ls) v = load_discussion-append ls v
load_discussion-append (garbage ∷ ls) v = load_discussion-append ls v
load_discussion-append (row w ∷ ls) v = ap (λ xs. w ∷ xs) (load_discussion-append ls v)

-- The stores of the mesh are the same.
pub record Untouched {M : Type 0} (s s' : Mesh M) : Type 0 where
  pub auth : s'.auth ≡ s.auth
  pub trust : s'.trust ≡ s.trust
  pub rate_limiter : s'.rate_limiter ≡ s.rate_limiter
  pub hub : s'.hub ≡ s.hub
  pub mesh_challenges : s'.mesh_challenges ≡ s.mesh_challenges
  pub pending_files : s'.pending_files ≡ s.pending_files

pub Untouched-same : {M : Type 0} (s : Mesh M) → Untouched s s
Untouched-same s = record {
  auth = refl;
  trust = refl;
  rate_limiter = refl;
  hub = refl;
  mesh_challenges = refl;
  pending_files = refl;
}

pub Untouched-trans : {M : Type 0} {r s t : Mesh M} → Untouched r s → Untouched s t → Untouched r t
Untouched-trans p q = record {
  auth = q.auth ∙ p.auth;
  trust = q.trust ∙ p.trust;
  rate_limiter = q.rate_limiter ∙ p.rate_limiter;
  hub = q.hub ∙ p.hub;
  mesh_challenges = q.mesh_challenges ∙ p.mesh_challenges;
  pending_files = q.pending_files ∙ p.pending_files;
}

-- The discussion is the end of what `load_discussion` reads in the log.
abbrev pub ShowsLog : {M : Type 0} → ℕ → Mesh M → Type 0
ShowsLog bound s = Shows bound 100 (load_discussion s.live_jsonl) s.discussion

-- What a viewer leaves.
pub record Viewed {M : Type 0} (bound : ℕ) (s s' : Mesh M) : Type 0 where
  pub stores : Untouched s s'
  pub shown : ShowsLog bound s'

module _ {M : Type 0} (out : Outside M) where
  pub decide_viewer-keeps :
      (t : Times) (peer : String) (d : Option (Limiter × Decision)) (s : Mesh M)
      → Untouched s (decide_viewer out t peer d s).1
        × ((decide_viewer out t peer d s).1.discussion ≡ s.discussion)
        × ((decide_viewer out t peer d s).1.live_jsonl ≡ s.live_jsonl)
  unfolding decide_viewer record_activity
  decide_viewer-keeps t peer none s = (Untouched-same s, refl, refl)
  decide_viewer-keeps t peer (some (l, d)) s = elim (Bool-cases d.allowed) [
    | inl y ↦ rw y (
      record {
        auth = refl;
        trust = refl;
        rate_limiter = refl;
        hub = refl;
        mesh_challenges = refl;
        pending_files = refl;
      },
      refl,
      refl,
    )
    | inr n ↦ rw n (
      record {
        auth = refl;
        trust = refl;
        rate_limiter = refl;
        hub = refl;
        mesh_challenges = refl;
        pending_files = refl;
      },
      refl,
      refl,
    )
  ]

  discuss-Viewed :
      (bound : ℕ) (t : Times) (msg : _) (s : Mesh M)
      → 200 ≤ bound
      → ShowsLog bound s
      → Viewed bound s (discuss out t true msg s)
  unfolding append_discussion
  discuss-Viewed bound t msg s wide shown = record {
    stores = record {
      auth = refl;
      trust = refl;
      rate_limiter = refl;
      hub = refl;
      mesh_challenges = refl;
      pending_files = refl;
    };
    shown = rw (load_discussion-append) (
        push-Shows bound 200 100 (omega arith) (omega arith) wide _ (load_discussion s.live_jsonl)
          s.discussion shown);
  }

  limit_viewer-Viewed :
      (bound : ℕ) (t : Times) (peer : String) (s : Mesh M)
      → ShowsLog bound s
      → Viewed bound s (limit_viewer out t peer s).1
  unfolding limit_viewer
  limit_viewer-Viewed bound t peer s shown =
      let (u, d, l) = decide_viewer-keeps t peer _ s in
      record { stores = u; shown = rw (d, l) shown }

  take_message-Viewed :
      (bound : ℕ) (t : Times) (raw : Option Json) (s : Mesh M)
      → 200 ≤ bound
      → ShowsLog bound s
      → Viewed bound s (take_message out t true raw s).1
  unfolding take_message
  take_message-Viewed bound t none s wide shown = record {
    stores = Untouched-same s;
    shown = shown;
  }
  take_message-Viewed bound t (some null) s wide shown = record {
    stores = Untouched-same s;
    shown = shown;
  }
  take_message-Viewed bound t (some (bool _)) s wide shown = record {
    stores = Untouched-same s;
    shown = shown;
  }
  take_message-Viewed bound t (some (num _)) s wide shown = record {
    stores = Untouched-same s;
    shown = shown;
  }
  take_message-Viewed bound t (some (str _)) s wide shown = record {
    stores = Untouched-same s;
    shown = shown;
  }
  take_message-Viewed bound t (some (arr _)) s wide shown = record {
    stores = Untouched-same s;
    shown = shown;
  }
  take_message-Viewed bound t (some (obj msg)) s wide shown =
      elim (Bool-cases (is_text "add_discussion" (get_field "type" msg))) [
        | inl y ↦ rw (take_message, y) (discuss-Viewed bound t msg s wide shown)
        | inr n ↦ rw (take_message, n) (record { stores = Untouched-same s; shown = shown })
      ]

  unless_limited-Viewed :
      (bound : ℕ) (limited : Option ℕ) (rest : Route M Unit) (s w : Mesh M)
      → Viewed bound s w
      → Viewed bound w (rest w).1
      → Viewed bound s (unless_limited out limited rest w).1
  unless_limited-Viewed bound (some n) rest s w v x = v
  unless_limited-Viewed bound none rest s w v x =
      continue-cases (λ q. Viewed bound s q.1) _ (rest w)
        (λ _ _. record { stores = Untouched-trans v.stores x.stores; shown = x.shown })
        (λ _ _. record { stores = Untouched-trans v.stores x.stores; shown = x.shown })

  on_frame-Viewed :
      (bound : ℕ) (peer : String) (a : Arrival) (s : Mesh M)
      → 200 ≤ bound
      → a.writable ≡ true
      → ShowsLog bound s
      → Viewed bound s (on_frame out peer a s).1
  unfolding on_frame
  on_frame-Viewed bound peer a s wide writable shown =
      let v = limit_viewer-Viewed bound a.t peer s shown in
      let o = limit_viewer out a.t peer s in
      continue-cases (λ q. Viewed bound s q.1) _ o (λ _ _. v)
        (λ limited _.
          unless_limited-Viewed bound limited _ s o.1 v
            (rw writable (take_message-Viewed bound a.t a.raw o.1 wide v.shown)))

-- Whatever frames arrive on a raw socket of the dashboard, and however the loop ends: the stores of
-- the mesh are what they were, and the discussion that is shown is the end of what `load_discussion`
-- reads in the log, with at least its newest 100 entries (or all of them), and never more than `bound`
-- entries, which is at least 200; if the log can be written and all of this held before.
pub ws_loop-Viewed :
    {M : Type 0} (out : Outside M) (bound : ℕ) (peer : String) (frames : List Arrival) (s : Mesh M)
    → 200 ≤ bound
    → All (λ a. a.writable ≡ true) frames
    → ShowsLog bound s
    → Viewed bound s (ws_loop out peer frames s)
unfolding ws_loop
ws_loop-Viewed out bound peer [] s wide w shown = record {
  stores = Untouched-same s;
  shown = shown;
}
ws_loop-Viewed out bound peer (a ∷ frames) s wide w shown =
    let o = on_frame out peer a s in
    let v = on_frame-Viewed out bound peer a s wide w.0 shown in
    let rest = ws_loop-Viewed out bound peer frames o.1 wide w.1 v.shown in
    elim (Result-cases o.0) [
      | inl (x, e) ↦
          rw (ws_loop, e)
            (record { stores = Untouched-trans v.stores rest.stores; shown = rest.shown })
      | inr (x, e) ↦ rw (ws_loop, e) v
    ]
