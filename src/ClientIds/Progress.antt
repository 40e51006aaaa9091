-- ===== src/ClientIds/Progress.antt =====
-- Runs of a worker thread to its end.
use service_call.Base.{ℕ, ◌≡◌, ◌≢◌, refl, ◌∙◌, false, none, some, arith, Star, done, more}
use service_call.ClientIds.{find_client}
use service_call.ClientIds.Threads.{
  Phase, absent, started, serving, replied, left, State, Step, enter, reply, leave, close, Reach,
  next, held, update,
}
use service_call.ClientIds.Safety.{Reach-Inv}

abbrev pub Run : State → State → Type 0
Run = Star Step

Reach-Run : {s u : State} → Reach s → Run s u → Reach u
Reach-Run r done = r
Reach-Run r (more st rest) = Reach-Run (next r st) rest

update_same : (f : ℕ → Phase) (t : ℕ) (a : Phase) → update f t a t ≡ a
update_same f t a = ground arith

update_other : (f : ℕ → Phase) (t x : ℕ) (a : Phase) → x ≢ t → update f t a x ≡ f x
update_other f t x a ne = ground arith

-- The thread has ended, its client's handle is closed, and no other thread has moved.
pub record Finished (s u : State) (t h : ℕ) : Type 0 where
  pub ended : u.phase t ≡ absent
  pub closed : u.is_open h ≡ false
  pub others : (x : ℕ) → x ≢ t → u.phase x ≡ s.phase x

abbrev CanFinish : State → (t h : ℕ) → Type 0
CanFinish s t h = (u : State) × Run s u × Finished s u t h

-- A step of the thread before it can finish.
CanFinish-more :
    (s v : State) (t h : ℕ) (a : Phase)
    → Step s v
    → v.phase ≡ update s.phase t a
    → CanFinish v t h
    → CanFinish s t h
CanFinish-more s v t h a st e (u, run, fin) = (
  u,
  more st run,
  record {
    ended = fin.ended;
    closed = fin.closed;
    others = λ x ne. fin.others x ne ∙ rw e (update_other s.phase t x a ne);
  },
)

left-CanFinish : (s : State) (t h : ℕ) → s.phase t ≡ left h → CanFinish s t h
left-CanFinish s t h e = (
  _,
  more (close t h e) done,
  record {
    ended = update_same s.phase t absent;
    closed = ground arith;
    others = λ x ne. update_other s.phase t x absent ne;
  },
)

replied-CanFinish : (s : State) (t h : ℕ) → s.phase t ≡ replied h → CanFinish s t h
replied-CanFinish s t h e =
    CanFinish-more s _ t h (left h) (leave t h e) refl
      (left-CanFinish _ t h (update_same s.phase t (left h)))

serving-CanFinish : (s : State) (t h : ℕ) → s.phase t ≡ serving h → CanFinish s t h
serving-CanFinish s t h e =
    CanFinish-more s _ t h (replied h) (reply t h e) refl
      (replied-CanFinish _ t h (update_same s.phase t (replied h)))

started-CanFinish : (s : State) (t h : ℕ) → s.phase t ≡ started h → CanFinish s t h
started-CanFinish s t h e =
    CanFinish-more s _ t h (serving h) (enter t h e) refl
      (serving-CanFinish _ t h (update_same s.phase t (serving h)))

held-CanFinish :
    (s : State) (t h : ℕ) (p : Phase) → s.phase t ≡ p → held p ≡ some h → CanFinish s t h
held-CanFinish s t h absent e k = cc
held-CanFinish s t h (started g) e k = started-CanFinish s t h (ground arith)
held-CanFinish s t h (serving g) e k = serving-CanFinish s t h (ground arith)
held-CanFinish s t h (replied g) e k = replied-CanFinish s t h (ground arith)
held-CanFinish s t h (left g) e k = left-CanFinish s t h (ground arith)

-- Wherever the other worker threads stand, a worker thread that holds a client's handle has a run to its end
-- in which no other thread moves; then the handle is closed and the list has no entry for the thread.
pub worker-finishes :
    {s : State} (t h : ℕ)
    → Reach s
    → held (s.phase t) ≡ some h
    → (u : State) × Run s u × Finished s u t h × (find_client t u.clients ≡ none)
worker-finishes {s} t h r k =
    let (u, run, fin) = held-CanFinish s t h (s.phase t) refl k in
    (u, run, fin, ground (arith, (Reach-Inv (Reach-Run r run)).found t, fin.ended))
