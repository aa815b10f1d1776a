-- ===== src/Diagnostics/Reports.antt =====
-- What becomes of a configuration that a constructor cannot apply (diagnostics.go, and its callers
-- in timeout.go and ratelimit.go), where a client is made of the two middleware that have one.
use go_httpclient.Shared.{
  ℕ, ◌≡◌, refl, ap, sym, ◌∙◌, Bool, true, false, Option, none, some, List, [], ◌∷◌, arith,
  if◌then◌else◌, inl, inr, Option-cases, String,
}
use go_httpclient.Shared.Int.{ℤ, pos, leb_ℤ}
use go_httpclient.Http.World.{Event, World, Middleware, RoundTripper, invalid_config}
use go_httpclient.Client.{chain}
use go_httpclient.Client.Chain.{wrap, chain-eq-wrap}
use go_httpclient.Timeout.{timeout}
use go_httpclient.RateLimit.{RateLimitConfig, rate_limit}
use go_httpclient.Diagnostics.{report_invalid_config}

-- What the caller asks for: `Timeout(d)`, or `RateLimit(cfg)` with the address of its state.
pub data Part : Type 0 where
  timeout_of : ℤ → Part
  rate_limit_of : RateLimitConfig → ℕ → Part

-- The component that a part names when it cannot protect, and whether it cannot.
abbrev pub fault : Part → Option String
fault (timeout_of d) = if leb_ℤ d (pos 0) then some "Timeout" else none
fault (rate_limit_of cfg p) = elim cfg.limiter [ none ↦ some "RateLimit" | some l ↦ none ]

abbrev keep : Option String → Part → List Part → List Part
keep none p ps = p ∷ ps
keep (some c) p ps = ps

abbrev tell : Option String → List Event → List Event
tell none es = es
tell (some c) es = invalid_config c ∷ es

-- The parts that can, and what the others report, the latest first.
abbrev pub live : List Part → List Part
live [] = []
live (p ∷ ps) = keep (fault p) p (live ps)

abbrev pub reports : List Part → List Event → List Event
reports [] es = es
reports (p ∷ ps) es = reports ps (tell (fault p) es)

report-events :
    (c : String) (w : World)
    → ((report_invalid_config c w).events
        ≡ (if w.on_invalid_config then invalid_config c ∷ w.events else w.events))
      × ((report_invalid_config c w).on_invalid_config ≡ w.on_invalid_config)
unfolding report_invalid_config
report-events c w = ground arith

told_first :
    (c : String) (ps : List Part) (es es' : List Event) (set set' : Bool)
    → set' ≡ set
    → es' ≡ (if set then invalid_config c ∷ es else es)
    → (if set' then reports ps es' else es')
      ≡ (if set then reports ps (invalid_config c ∷ es) else es)
told_first c ps es es' true set' h k = rw (h, k) refl
told_first c ps es es' false set' h k = rw (h, k) refl

reports-live : (ps : List Part) → reports (live ps) [] ≡ []
reports-live [] = refl
reports-live (p ∷ ps) = elim (Option-cases (fault p)) [
  | inl e ↦ rw e (ap (λ f. reports (live ps) (tell f [])) e ∙ reports-live ps)
  | inr (c, e) ↦ rw e (reports-live ps)
]

module _ (parse_time : String → Option ℤ) where
  -- Each constructor is called in turn.
  abbrev pub make : Part → World → Middleware × World
  make (timeout_of d) w = timeout d w
  make (rate_limit_of cfg p) w = rate_limit parse_time cfg p w

  abbrev pub make_all : List Part → World → List Middleware × World
  make_all [] w = ([], w)
  make_all (p ∷ ps) w = let (m, w1) = make p w in let (ms, w2) = make_all ps w1 in (m ∷ ms, w2)

  -- A part that can protect reports nothing; one that cannot reports its name, and passes on what
  -- it is given.
  made_live : (p : Part) (w : World) → fault p ≡ none → (make p w).1 ≡ w
  unfolding timeout rate_limit
  made_live (timeout_of d) w h = ground arith
  made_live (rate_limit_of cfg q) w h = ground arith

  made_inert :
      (p : Part) (w : World) (c : String)
      → fault p ≡ some c
      → ((make p w).0 ≡ (λ next. next)) × ((make p w).1 ≡ report_invalid_config c w)
  unfolding timeout rate_limit
  made_inert (timeout_of d) w c h = ground arith
  made_inert (rate_limit_of cfg q) w c h = ground arith

  -- The middleware does not depend on the world in which it is made.
  made_anywhere : (p : Part) (w v : World) → (make p w).0 ≡ (make p v).0
  unfolding timeout rate_limit
  made_anywhere (timeout_of d) w v = ground arith
  made_anywhere (rate_limit_of cfg q) w v = ground arith

  make_all-events :
      (ps : List Part) (w : World)
      → (make_all ps w).1.events ≡ (if w.on_invalid_config then reports ps w.events else w.events)
  make_all-events [] w = ground arith
  make_all-events (p ∷ ps) w = elim (Option-cases (fault p)) [
    | inl e ↦ rw (made_live p w e, e) (make_all-events ps w)
    | inr (c, e) ↦
        let (told, set) = report-events c w in
        let after = (made_inert p w c e).1 in
        rw e (
          ap (λ u. (make_all ps u).1.events) after
          ∙ make_all-events ps (report_invalid_config c w)
          ∙ told_first c ps w.events _ w.on_invalid_config _ set told)
  ]

  make_all-wrap :
      (base : RoundTripper) (ps : List Part) (w v : World)
      → wrap base (make_all ps w).0 ≡ wrap base (make_all (live ps) v).0
  make_all-wrap base [] w v = refl
  make_all-wrap base (p ∷ ps) w v = elim (Option-cases (fault p)) [
    | inl e ↦
        rw (made_live p w e, e)
          (ap (make p w).0 (make_all-wrap base ps w (make p v).1)
            ∙ ap (λ m. m (wrap base (make_all (live ps) (make p v).1).0)) (made_anywhere p w v))
    | inr (c, e) ↦ rw e (
        ap (λ m. m (wrap base (make_all ps (make p w).1).0)) (made_inert p w c e).0
        ∙ make_all-wrap base ps (make p w).1 v)
  ]

  -- A client may be made with a Timeout that is not positive, or a RateLimit without a limiter.
  -- Each such part is reported by name when it is made, in order, if OnInvalidConfig is set, and
  -- nothing else is reported. The client made is the one without those parts: over any transport,
  -- it is the chain of the middleware that the other parts make.
  pub inert_parts_reported :
      (base : RoundTripper) (ps : List Part) (w v : World)
      → ((make_all ps w).1.events ≡ (if w.on_invalid_config then reports ps w.events else w.events))
        × (chain base (make_all ps w).0 ≡ chain base (make_all (live ps) v).0)
        × (reports (live ps) [] ≡ [])
  inert_parts_reported base ps w v = (
    make_all-events ps w,
    chain-eq-wrap base (make_all ps w).0
        ∙ make_all-wrap base ps w v
        ∙ sym (chain-eq-wrap base (make_all (live ps) v).0),
    reports-live ps,
  )
