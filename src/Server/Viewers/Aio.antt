-- ===== src/Server/Viewers/Aio.antt =====
-- server.py, `aio_ws`: its loop reads no message.
use hermes_k2_monitor.Prelude.{
  ℕ, ◌≡◌, refl, ◌∙◌, String, List, [], ◌∷◌, Option, none, some, inl, inr,
}
use hermes_k2_monitor.Monad.{continue-cases, Result-cases}
use hermes_k2_monitor.Server.Gates.{Request}
use hermes_k2_monitor.Server.Mesh.{Outside, Mesh}
use hermes_k2_monitor.Server.Viewers.{
  AioArrival, limit_viewer, loads_message, take_aio, unless_limited, on_aio_frame, aio_loop,
}
use hermes_k2_monitor.Server.Viewers.Log.{
  Untouched, Untouched-same, Untouched-trans, decide_viewer-keeps,
}

-- Neither the stores nor the discussion nor its log have changed.
pub record Silent {M : Type 0} (s s' : Mesh M) : Type 0 where
  pub stores : Untouched s s'
  pub discussion : s'.discussion ≡ s.discussion
  pub live_jsonl : s'.live_jsonl ≡ s.live_jsonl

module _ {M : Type 0} (out : Outside M) where
  unless_limited-Silent :
      (limited : Option ℕ) (r : Request) (a : AioArrival) (s w : Mesh M)
      → Silent s w
      → Silent s
          (unless_limited out limited (take_aio out r a.t a.writable (loads_message a.message)) w).1
  unfolding take_aio loads_message
  unless_limited-Silent (some n) r a s w v = v
  unless_limited-Silent none r a s w v = v

  on_aio_frame-Silent :
      (peer : String) (r : Request) (a : AioArrival) (s : Mesh M)
      → Silent s (on_aio_frame out peer r a s).1
  unfolding on_aio_frame limit_viewer
  on_aio_frame-Silent peer r a s =
      let o = limit_viewer out a.t peer s in
      let (u, d, l) = decide_viewer-keeps out a.t peer _ s in
      let v : Silent s o.1 = record { stores = u; discussion = d; live_jsonl = l } in
      continue-cases (λ q. Silent s q.1) _ o (λ _ _. v)
        (λ limited _. unless_limited-Silent limited r a s o.1 v)

-- Whatever frames a viewer sends to the socket of the web application: no entry is added to the
-- discussion or to its log, "add_discussion" or not, and the stores of the mesh are what they were.
pub aio_loop-Silent :
    {M : Type 0} (out : Outside M) (peer : String) (r : Request) (frames : List AioArrival)
    (s : Mesh M)
    → Silent s (aio_loop out peer r frames s)
unfolding aio_loop
aio_loop-Silent out peer r [] s = record {
  stores = Untouched-same s;
  discussion = refl;
  live_jsonl = refl;
}
aio_loop-Silent out peer r (a ∷ frames) s =
    let o = on_aio_frame out peer r a s in
    let v = on_aio_frame-Silent out peer r a s in
    let rest = aio_loop-Silent out peer r frames o.1 in
    elim (Result-cases o.0) [
      | inl (x, e) ↦
          rw (aio_loop, e)
            (record {
              stores = Untouched-trans v.stores rest.stores;
              discussion = rest.discussion ∙ v.discussion;
              live_jsonl = rest.live_jsonl ∙ v.live_jsonl;
            })
      | inr (x, e) ↦ rw (aio_loop, e) v
    ]
