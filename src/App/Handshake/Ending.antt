-- ===== src/App/Handshake/Ending.antt =====
-- Every run of the server from its start ends, and how (main.go, pkg/controller/informer.go).
use kubewatch.Common.{
  List, [], ap, arith, inl, inr, length, length-append, refl, some, some_eq, subst, sym, ℕ, ◌++◌,
  ◌+◌, ◌<◌, ◌∙◌, ◌∷◌, ◌≡◌, ◌≤◌, ◌⊎◌,
}
use mathlib.Core.List.{append-nil, append_assoc}
use kubewatch.Common.Int.{ℤ}
use kubewatch.Watch.{ExternalConfig, Running, Surroundings, start, waiting}
use kubewatch.App.{App, Closing, ClusterConfig, stop_app}
use kubewatch.App.Handshake.{
  After, MainAt, Server, StartAt, Step, aborted, at_close, at_receive, at_send, at_signal, at_sleep,
  at_start, at_stop, closes, deferred, live, met, next, now, over, returned, returns, signalled,
  start_failed, started, stop_panics, stops, wakes,
}

length-deferred : (rs : List Running) → length (deferred rs) ≡ length rs
length-deferred [] = refl
length-deferred (r ∷ rs) = omega (arith, length-append (deferred rs) (r ∷ []), length-deferred rs)

-- The steps that are left to each of the two, if `Start` starts so many informers.
abbrev main_left : MainAt → ℕ
main_left at_signal = 4
main_left at_send = 3
main_left at_stop = 2
main_left at_sleep = 1

abbrev start_left : ℕ → StartAt → ℕ
start_left k at_start = k + 2
start_left k (at_receive ds) = length ds + 1
start_left k (at_close ds) = length ds + 1
start_left k returned = 0

abbrev left : ℕ → Server → ℕ
left k (live m w app c) = main_left m + start_left k w
left k (over w app c) = 0
left k aborted = 0

-- The server got to the end of `main` with its app stopped; if `Start` has returned by then, it has
-- closed the channels of all its informers.
pub record IsOver (rs : List Running) (stopped : App) (s : Server) : Type 0 where
  pub at_end : StartAt
  pub closed : List Running
  pub is_over : s ≡ over at_end stopped closed
  pub all_closed : at_end ≡ returned → closed ≡ deferred rs

-- `Start` has received the stop.
abbrev pub HasStop : StartAt → Type 0
HasStop at_start = ⊥
HasStop (at_receive ds) = ⊥
HasStop (at_close ds) = Unit
HasStop returned = Unit

module _ (rs : List Running) (app stopped : App) where
  -- Before and after `Start` has received the stop.
  abbrev IsEarly : StartAt → List Running → Type 0
  IsEarly at_start c = c ≡ []
  IsEarly (at_receive ds) c = (ds ≡ deferred rs) × (c ≡ [])
  IsEarly (at_close ds) c = ⊥
  IsEarly returned c = ⊥

  abbrev IsLate : StartAt → List Running → Type 0
  IsLate at_start c = ⊥
  IsLate (at_receive ds) c = ⊥
  IsLate (at_close ds) c = c ++ ds ≡ deferred rs
  IsLate returned c = c ≡ deferred rs

  abbrev IsSound : Server → Type 0
  IsSound (live at_signal w a c) = (a ≡ app) × IsEarly w c
  IsSound (live at_send w a c) = (a ≡ app) × IsEarly w c
  IsSound (live at_stop w a c) = (a ≡ app) × IsLate w c
  IsSound (live at_sleep w a c) = (a ≡ stopped) × IsLate w c
  IsSound (over w a c) = (a ≡ stopped) × IsLate w c
  IsSound aborted = ⊥

  -- A step of `Start` alone.
  IsSound-start :
      (m : MainAt) (w w' : StartAt) (a : App) (c c' : List Running)
      → (IsEarly w c → IsEarly w' c')
      → (IsLate w c → IsLate w' c')
      → IsSound (live m w a c)
      → IsSound (live m w' a c')
  IsSound-start at_signal w w' a c c' f g (e, h) = (e, f h)
  IsSound-start at_send w w' a c c' f g (e, h) = (e, f h)
  IsSound-start at_stop w w' a c c' f g (e, h) = (e, g h)
  IsSound-start at_sleep w w' a c c' f g (e, h) = (e, g h)

  IsLate-HasStop : (w : StartAt) (c : List Running) → IsLate w c → HasStop w
  IsLate-HasStop at_start c h = h
  IsLate-HasStop (at_receive ds) c h = h
  IsLate-HasStop (at_close ds) c h = tt
  IsLate-HasStop returned c h = tt

  module _ (cluster_cfg : ClusterConfig) (ext : ExternalConfig) (around : Surroundings)
      (closing : Closing) (key_order : List ℤ → List ℤ) (starts : start ext around ≡ (waiting, rs))
      (stopping : stop_app cluster_cfg ext closing key_order app ≡ some stopped) where
    -- A step keeps the server sound.
    Step-IsSound :
        {s t : Server} → Step cluster_cfg ext around closing key_order s t → IsSound s → IsSound t
    Step-IsSound signalled h = h
    Step-IsSound (started {m = m} {app = a} {c = c} {rs = xs} e) h =
        IsSound-start m at_start (at_receive (deferred xs)) a c c
          (λ f. (ap (λ p. deferred p.1) (sym e ∙ starts), f)) (λ f. absurd f) h
    Step-IsSound (start_failed n) h = n (ap (λ p. p.0) starts)
    Step-IsSound (met {ds = ds}) (e, (d, n)) = (e, rw n d)
    Step-IsSound (closes {m = m} {d = d} {ds = ds} {app = a} {c = c}) h =
        IsSound-start m (at_close (d ∷ ds)) (at_close ds) a c (c ++ d ∷ []) (λ f. f)
          (λ f. append_assoc c (d ∷ []) ds ∙ f) h
    Step-IsSound (returns {m = m} {app = a} {c = c}) h =
        IsSound-start m (at_close []) returned a c c (λ f. f) (λ f. sym (append-nil c) ∙ f) h
    Step-IsSound (stops f) (e, h) =
        (some_eq (sym f ∙ ap (stop_app cluster_cfg ext closing key_order) e ∙ stopping), h)
    Step-IsSound (stop_panics f) (e, h) = cc (f, e, stopping)
    Step-IsSound wakes h = h

    -- Each step leaves fewer.
    Step-left :
        {s t : Server}
        → Step cluster_cfg ext around closing key_order s t
        → left (length rs) t < left (length rs) s
    Step-left signalled = omega arith
    Step-left (started {rs = xs} e) =
        let same : length xs ≡ length rs = ap (λ p. length p.1) (sym e ∙ starts) in
        omega (arith, same, length-deferred xs)
    Step-left (start_failed n) = absurd (n (ap (λ p. p.0) starts))
    Step-left (met {ds = ds}) = omega arith
    Step-left (closes {ds = ds}) = omega arith
    Step-left returns = omega arith
    Step-left (stops f) = omega arith
    Step-left (stop_panics {w = w} f) = omega arith
    Step-left (wakes {w = w}) = omega arith

    After-IsSound :
        {s : Server} {n : ℕ} {t : Server}
        → After cluster_cfg ext around closing key_order s n t
        → IsSound s
        → IsSound t × (n + left (length rs) t ≤ left (length rs) s)
    After-IsSound now h = (h, omega arith)
    After-IsSound (next m e) h =
        let (k, l) = After-IsSound m h in (Step-IsSound e k, omega (arith, l, Step-left e))

    -- The server has a step, or is at its end.
    abbrev CanStep : Server → Type 0
    CanStep s = (t : Server) × Step cluster_cfg ext around closing key_order s t

    go_on : (s : Server) → IsSound s → CanStep s ⊎ IsOver rs stopped s
    go_on (live at_signal w a c) h = inl (_, signalled)
    go_on (live at_send at_start a c) h = inl (_, started starts)
    go_on (live at_send (at_receive ds) a c) h = inl (_, met)
    go_on (live at_send (at_close ds) a c) h = absurd h.1
    go_on (live at_send returned a c) h = absurd h.1
    go_on (live at_stop w a c) (e, h) =
        inl (_, stops (ap (stop_app cluster_cfg ext closing key_order) e ∙ stopping))
    go_on (live at_sleep w a c) h = inl (_, wakes)
    go_on (over w a c) (e, h) = inr (record {
      at_end = w;
      closed = c;
      is_over = ap (λ x. over w x c) e;
      all_closed = λ f. subst (λ x. IsLate x c) f h;
    })
    go_on aborted h = absurd h

    -- If `Start` comes to its wait with the given informers and the shutdown of the app succeeds,
    -- then a server that starts with none of them closed ends after at most 6 steps and one for
    -- each informer: until then some step is possible, and at the end the app is stopped. The
    -- shutdown is called only once `Start` has received the stop, which then, if it comes to
    -- return, has closed the channel of every informer, that of the last one first.
    pub server_ends :
        (n : ℕ) {s : Server}
        → After cluster_cfg ext around closing key_order (live at_signal at_start app []) n s
        → (n ≤ 6 + length rs)
          × (((t : Server) × Step cluster_cfg ext around closing key_order s t)
              ⊎ IsOver rs stopped s)
          × ((w : StartAt) (a : App) (c : List Running) → s ≡ live at_stop w a c → HasStop w)
    server_ends n {s} m =
        let (h, l) = After-IsSound m (refl, refl) in
        (omega (arith, l), go_on s h, λ w a c e. IsLate-HasStop w c (subst IsSound e h).1)
