-- ===== src/Basic/Leaks.antt =====
-- The example leaks no response (examples/basic/main.go).
use go_httpclient.Shared.{
  ℕ, ◌*◌, ◌+◌, ◌≡◌, refl, sym, subst, ap, ◌∙◌, true, Option, none, some, List, [], ◌∷◌, String, ◌⊎◌,
  inl, inr, arith, Option-cases, Bool-cases,
}
use go_httpclient.Shared.Int.{ℤ, pos}
use go_httpclient.Shared.Float.{Float64}
use go_httpclient.Http.Error.{Err}
use go_httpclient.Http.Message.{Outcome, Response}
use go_httpclient.Http.World.{World, RoundTripper, cancel, with_timeout}
use go_httpclient.Http.World.Bodies.{
  closing, is_marked, none-ne-some, Keeps-close_body, Keeps-drain_body, OpensNone-close_body,
  OpensNone-drain_body, close_body-IsClosed, is_opened, IsClosed, Keeps, OpensNone, carried_by,
}
use go_httpclient.Breaker.{second}
use go_httpclient.Request.{RequestBuilder, Marshaled}
use go_httpclient.Request.Execute.{Net, execute_method}
use go_httpclient.Contract.{Honors, Account, before, closed, returned, Releases, KeepsBodies}
use go_httpclient.Timeout.{timeout}
use go_httpclient.Breaker.RoundTrip.{circuit_breaker, new_shared}
use go_httpclient.Backoff.{overflows_exp}
use go_httpclient.Backoff.Jitter.{exponential_backoff}
use go_httpclient.Retry.{Policy, with_defaults, retry}
use go_httpclient.Contract.Chain.{
  Layer, AllFair, client_of, client_of-eq-wrap, client_of-Honors, client_of-Releases,
}
use go_httpclient.Contract.Exclusive.{
  HasOne, IsExclusive, bound_time-ExclusiveOver, break_circuit-ExclusiveOver, retry-ExclusiveOver,
}
use go_httpclient.Contract.Builder.{IsTidy, execute_method-IsTidy}
use go_httpclient.Basic.{
  retry_config, show, simple_get, get_with_query_params, post_json, path_params, custom_headers,
  basic_client, run,
}

-- What a step leaves: nothing that was closed is open again, and of the bodies that are open each
-- was so before, or has been closed.
record IsClean (w v : World) : Type 0 where
  pub keeps : Keeps w v
  pub no_leak : (b : ℕ) → is_opened b v.events ≡ true → (is_opened b w.events ≡ true) ⊎ IsClosed b v

IsClean-then : (w v u : World) → IsClean w v → IsClean v u → IsClean w u
IsClean-then w v u first then_ = record {
  keeps = λ b h. then_.keeps b (first.keeps b h);
  no_leak = λ b h. elim (then_.no_leak b h) [
    | inr done ↦ inr done
    | inl earlier ↦ elim (first.no_leak b earlier) [
      | inl old ↦ inl old
      | inr shut ↦ inr (then_.keeps (closing b) shut)
    ]
  ];
}

-- To show an outcome undoes no closing and opens nothing, and closes the response's body.
record IsShown (o : Outcome) (w v : World) : Type 0 where
  pub keeps : Keeps w v
  pub shut : OpensNone w v
  pub closes : (b : ℕ) → o.err ≡ none → carried_by o.resp ≡ some b → IsClosed b v

some-ne-none : (e : Err) → ¬ (some e ≡ none)
some-ne-none e h = ground arith

show_lem :
    (resp : Option Response) (err : Option Err) (w : World)
    → let o : Outcome = record { resp = resp; err = err } in IsShown o w (show (o, w))
unfolding show
show_lem resp (some e) w = record {
  keeps = λ b h. h;
  shut = λ b. refl;
  closes = λ b h k. absurd (some-ne-none e h);
}
show_lem none none w = record {
  keeps = λ b h. h;
  shut = λ b. refl;
  closes = λ b h k. absurd (none-ne-some b k);
}
show_lem (some r) none w = elim (Option-cases r.body) [
  | inl e ↦
      rw e
        (record { keeps = λ b h. h; shut = λ b. refl; closes = λ b h k. absurd (none-ne-some b k) })
  | inr (x, e) ↦ rw e (record {
    keeps = λ b h. Keeps-close_body x _ b (Keeps-drain_body x w b h);
    shut = λ b. OpensNone-close_body x _ b ∙ OpensNone-drain_body x w b;
    closes = λ b h k. close_body-IsClosed x b _ k;
  })
]

show-IsClean : (w : World) (out : Outcome × World) → IsTidy w out → IsClean w (show out)
show-IsClean w (o, v) tidy = record {
  keeps = λ b h. shown.keeps b (tidy.keeps b h);
  no_leak = λ b h. go b (tidy.accounts b (sym (shown.shut b) ∙ h));
}
  where
    shown : IsShown o v (show (o, v))
    shown = show_lem o.resp o.err v

    returned_closed : (b : ℕ) → HasOne o → carried_by o.resp ≡ some b → IsClosed b (show (o, v))
    returned_closed b (inl fine) h = shown.closes b fine h
    returned_closed b (inr empty) h =
        absurd (none-ne-some b (subst (λ r. carried_by r ≡ some b) empty h))

    go : (b : ℕ) → Account w (o, v) b → (is_opened b w.events ≡ true) ⊎ IsClosed b (show (o, v))
    go b (before h) = inl h
    go b (closed h) = inr (shown.keeps (closing b) h)
    go b (returned h) = inr (returned_closed b tidy.one h)

module _ (net : Net) (canonical : String → String) (base64 : String → String)
    (client : RoundTripper) (honest : Honors client) (release : Releases client)
    (one : IsExclusive client) where
  shown-IsClean :
      (method url : String) (rb : RequestBuilder) (w : World)
      → IsClean w (show (execute_method net client method url rb w))
  shown-IsClean method url rb w =
      show-IsClean w _ (execute_method-IsTidy client honest release one net method url rb w)

  simple_get-IsClean : (w : World) → IsClean w (simple_get net canonical base64 client w)
  unfolding simple_get
  simple_get-IsClean w = shown-IsClean _ _ _ w

  get_with_query_params-IsClean :
      (w : World) → IsClean w (get_with_query_params net canonical base64 client w)
  unfolding get_with_query_params
  get_with_query_params-IsClean w = shown-IsClean _ _ _ w

  post_json-IsClean :
      (payload : Marshaled) (w : World)
      → IsClean w (post_json net canonical base64 client payload w)
  unfolding post_json
  post_json-IsClean payload w = shown-IsClean _ _ _ w

  path_params-IsClean : (w : World) → IsClean w (path_params net canonical base64 client w)
  unfolding path_params
  path_params-IsClean w = shown-IsClean _ _ _ w

  custom_headers-IsClean : (w : World) → IsClean w (custom_headers net canonical base64 client w)
  unfolding custom_headers cancel with_timeout
  custom_headers-IsClean w =
      let shown = shown-IsClean _ _ _ (record w { next_context = w.next_context + 1 }) in
      record { keeps = λ b h. shown.keeps b h; no_leak = λ b h. shown.no_leak b h }

  requests-IsClean :
      (payload : Marshaled) (w : World)
      → IsClean w (
          custom_headers net canonical base64 client (
            path_params net canonical base64 client (
              post_json net canonical base64 client payload (
                get_with_query_params net canonical base64 client
                  (simple_get net canonical base64 client w)))))
  requests-IsClean payload w = IsClean-then w _ _ (simple_get-IsClean w) (
      IsClean-then _ _ _ (get_with_query_params-IsClean _) (
        IsClean-then _ _ _ (post_json-IsClean payload _)
          (IsClean-then _ _ _ (path_params-IsClean _) (custom_headers-IsClean _))))

module _ (fl : Float64) (rand : ℕ → fl.F) where
  abbrev policy : Policy
  policy = with_defaults fl rand (retry_config fl rand)

  abbrev layers : ℕ → List Layer
  layers p = Layer.timed (pos (10 * second)) ∷ Layer.breaking p ∷ Layer.retrying policy ∷ []

  basic_client-eq-client_of :
      (transport : RoundTripper) (p : ℕ) (w : World)
      → (basic_client fl rand transport p w).0 ≡ client_of transport (layers p)
  unfolding basic_client timeout circuit_breaker retry
  basic_client-eq-client_of transport p w = refl

  exponential_backoff-events :
      (base most : ℤ) (k : ℕ) (r : Option Response) (w : World)
      → (exponential_backoff fl rand base most k r w).1.events ≡ w.events
  unfolding exponential_backoff
  exponential_backoff-events base most k r w = elim (Bool-cases (overflows_exp base k)) [
    | inl e ↦ rw e refl
    | inr e ↦ rw e refl
  ]

  policy-KeepsBodies : KeepsBodies policy
  unfolding with_defaults
  policy-KeepsBodies = record {
    keeps = λ k r w b h.
        subst (λ es. is_marked b es ≡ true) (sym (exponential_backoff-events _ _ k r w)) h;
    shut = λ k r w b. ap (is_opened b) (exponential_backoff-events _ _ k r w);
  }

  layers-AllFair : (p : ℕ) → AllFair (layers p)
  unfolding with_defaults
  layers-AllFair p = (tt, (tt, ((policy-KeepsBodies, omega arith), tt)))

  client-IsExclusive :
      (transport : RoundTripper) (p : ℕ)
      → IsExclusive transport
      → IsExclusive (client_of transport (layers p))
  client-IsExclusive transport p one =
      subst IsExclusive (sym (client_of-eq-wrap transport (layers p))) (
        bound_time-ExclusiveOver _ _
          (break_circuit-ExclusiveOver p _ (retry-ExclusiveOver policy transport one)))

  made_quietly :
      (transport : RoundTripper) (p : ℕ) (w : World)
      → (basic_client fl rand transport p w).1.events ≡ w.events
  unfolding basic_client timeout new_shared
  made_quietly transport p w = refl

  -- The example leaks no response: whatever becomes of its five requests, each body of a response
  -- that is open when it ends was open before it, or has been closed. So are the bodies of attempts
  -- that were retried. The transport leaks none itself, closes the requests' bodies, and returns a
  -- response or an error, and not both.
  pub example_leaks_nothing :
      (net : Net) (canonical base64 : String → String) (transport : RoundTripper)
      (payload : Marshaled) (p : ℕ) (w : World) (b : ℕ)
      → Honors transport
      → Releases transport
      → IsExclusive transport
      → is_opened b (run fl rand net canonical base64 transport payload p w).events ≡ true
      → (is_opened b w.events ≡ true)
        ⊎ IsClosed b (run fl rand net canonical base64 transport payload p w)
  unfolding run
  example_leaks_nothing net canonical base64 transport payload p w b honest release one opened =
      let client = (basic_client fl rand transport p w).0 in
      let same = sym (basic_client-eq-client_of transport p w) in
      let clean =
        requests-IsClean net canonical base64 client
          (subst Honors same (client_of-Honors transport (layers p) (layers-AllFair p) honest))
          (subst Releases same
            (client_of-Releases transport (layers p) (layers-AllFair p) honest release))
          (subst IsExclusive same (client-IsExclusive transport p one)) payload
          (basic_client fl rand transport p w).1 in
      let made = made_quietly transport p w in
      elim (clean.no_leak b opened) [
        | inl old ↦ inl (subst (λ es. is_opened b es ≡ true) made old)
        | inr shut ↦ inr shut
      ]
