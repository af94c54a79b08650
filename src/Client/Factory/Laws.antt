-- ===== src/Client/Factory/Laws.antt =====
-- `Start` may be called any number of times: no informer runs twice.
use caffe2_operator.Prelude.{
  ℕ, suc, ◌≤◌, ◌≡◌, refl, String, Bool, true, none, some, inl, inr, List, [], ◌∷◌, if◌then◌else◌,
  arith, Bool-cases, Option-cases,
}
use caffe2_operator.Prelude.Dict.{Dict, lookup, lookup-insert}
use text.Mathlib.Text.{◌==◌}
use text.Mathlib.TextEquality.{eq_iff}
use caffe2_operator.Client.Factory.{
  is_started, SharedInformerFactory, new_shared_informer_factory, start_informer, start_all, start,
  informer_for, Request, ask, start_requested, serve, serve_all,
}

-- How often a name is in a list.
abbrev pub count : String → List String → ℕ
count name [] = 0
count name (x ∷ xs) = let rest = count name xs in if x == name then suc rest else rest

module _ (Informer : Type 0) where
  -- Each type that is started has been run once, and no other.
  abbrev pub RunsOnce : SharedInformerFactory Informer → Type 0
  RunsOnce f =
      (t : String) → count t f.running ≡ (if is_started t f.started_informers then 1 else 0)

  start_informer-RunsOnce :
      (t : String) (f : SharedInformerFactory Informer)
      → RunsOnce f
      → RunsOnce (start_informer Informer t f)
  unfolding start_informer
  start_informer-RunsOnce t f h asked =
      ground (arith, h asked, h t, lookup-insert t asked true f.started_informers, eq_iff t asked)

  start_informer-keeps :
      (t asked : String) (f : SharedInformerFactory Informer)
      → is_started asked f.started_informers ≡ true
      → is_started asked (start_informer Informer t f).started_informers ≡ true
  unfolding start_informer
  start_informer-keeps t asked f h =
      ground (arith, h, lookup-insert t asked true f.started_informers, eq_iff t asked)

  start_informer-starts :
      (t asked : String) (f : SharedInformerFactory Informer)
      → t ≡ asked
      → is_started asked (start_informer Informer t f).started_informers ≡ true
  unfolding start_informer
  start_informer-starts t asked f e =
      ground (arith, e, lookup-insert t asked true f.started_informers, eq_iff t asked)

  start_all-RunsOnce :
      (entries : Dict Informer) (f : SharedInformerFactory Informer)
      → RunsOnce f
      → RunsOnce (start_all Informer entries f)
  unfolding start_all
  start_all-RunsOnce [] f h = h
  start_all-RunsOnce ((t, i) ∷ rest) f h =
      start_all-RunsOnce rest (start_informer Informer t f) (start_informer-RunsOnce t f h)

  start_all-keeps :
      (entries : Dict Informer) (asked : String) (f : SharedInformerFactory Informer)
      → is_started asked f.started_informers ≡ true
      → is_started asked (start_all Informer entries f).started_informers ≡ true
  unfolding start_all
  start_all-keeps [] asked f h = h
  start_all-keeps ((t, i) ∷ rest) asked f h =
      start_all-keeps rest asked (start_informer Informer t f) (start_informer-keeps t asked f h)

  start_all-starts :
      (entries : Dict Informer) (asked : String) (informer : Informer)
      (f : SharedInformerFactory Informer)
      → lookup asked entries ≡ some informer
      → is_started asked (start_all Informer entries f).started_informers ≡ true
  unfolding start_all lookup
  start_all-starts [] asked informer f h = absurd (no_informer informer h)
    where
      no_informer : (i : Informer) → none ≡ some i → ⊥
      no_informer i e = cc
  start_all-starts ((t, i) ∷ rest) asked informer f h = elim (Bool-cases (t == asked)) [
    | inl same ↦
        start_all-keeps rest asked (start_informer Informer t f)
          (start_informer-starts t asked f ((eq_iff t asked).0 same))
    | inr other ↦ start_all-starts rest asked informer (start_informer Informer t f) (rw other at h)
  ]

  serve-RunsOnce :
      (r : Request Informer) (f : SharedInformerFactory Informer)
      → RunsOnce f
      → RunsOnce (serve Informer r f)
  unfolding serve start informer_for
  serve-RunsOnce (ask t new_func) f h asked = elim (Option-cases (lookup t f.informers)) [
    | inl e ↦ rw (e, serve) (h asked)
    | inr (i, e) ↦ rw (e, serve) (h asked)
  ]
  serve-RunsOnce start_requested f h asked = start_all-RunsOnce f.informers f h asked

  serve_all-RunsOnce :
      (rs : List (Request Informer)) (f : SharedInformerFactory Informer)
      → RunsOnce f
      → RunsOnce (serve_all Informer rs f)
  unfolding serve_all
  serve_all-RunsOnce [] f h = h
  serve_all-RunsOnce (r ∷ rs) f h =
      serve_all-RunsOnce rs (serve Informer r f) (serve-RunsOnce r f h)

  -- After any sequence of calls of `InformerFor` and `Start` on a new factory, an informer that the
  -- factory has made has been run at most once, and after one more `Start` exactly once.
  pub start_runs_once :
      (rs : List (Request Informer)) (t : String) (informer : Informer)
      → lookup t (serve_all Informer rs (new_shared_informer_factory Informer)).informers
        ≡ some informer
      → (count t (serve_all Informer rs (new_shared_informer_factory Informer)).running ≤ 1)
        × (count t
              (start Informer
                (serve_all Informer rs (new_shared_informer_factory Informer))).running
            ≡ 1)
  unfolding start
  start_runs_once rs t informer h =
      let f = serve_all Informer rs (new_shared_informer_factory Informer) in
      let once : RunsOnce f =
        serve_all-RunsOnce rs (new_shared_informer_factory Informer)
          (λ t'. unfold new_shared_informer_factory lookup in refl) in
      (
        at_most_one (is_started t f.started_informers) (once t),
        rw (start_all-starts f.informers t informer f h) at
            (start_all-RunsOnce f.informers f once t),
      )
    where
      at_most_one : {n : ℕ} (b : Bool) → n ≡ (if b then 1 else 0) → n ≤ 1
      at_most_one b h = ground arith
