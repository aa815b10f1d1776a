-- ===== src/Contract/Builder.antt =====
-- The request builder over a client that keeps to the contract (request.go, `execute`; client.go,
-- `Do`).
use go_httpclient.Shared.{refl, Option, none, some, inl, inr, Bool-cases, String}
use go_httpclient.Shared.Int.{ℤ, pos, leb_ℤ}
use go_httpclient.Http.Message.{Context, Outcome}
use go_httpclient.Http.World.{World, Request, RoundTripper, with_timeout}
use go_httpclient.Http.World.Bodies.{Keeps, Keeps-settle, OpensNone-settle, carried_by-settle}
use go_httpclient.Client.{do_request}
use go_httpclient.Request.{RequestBuilder}
use go_httpclient.Request.Execute.{
  Net, Built, built, not_built, build, send, send_within, execute_method,
}
use go_httpclient.Contract.{Honors, Accounts, Releases}
use go_httpclient.Contract.Responses.{Accounts-after, Accounts-before, Accounts-none}
use go_httpclient.Contract.Exclusive.{HasOne, IsExclusive, settle-HasOne}

-- What a call leaves: nothing that was closed is open again, every body that is open is accounted
-- for, and there is a response or an error.
pub record IsTidy (w : World) (out : Outcome × World) : Type 0 where
  pub keeps : Keeps w out.1
  pub accounts : Accounts w out
  pub one : HasOne out.0

module _ (client : RoundTripper) (honest : Honors client) (release : Releases client)
    (one : IsExclusive client) where
  do_request-IsTidy :
      (ctx : Option Context) (req : Request) (w : World)
      → IsTidy w (do_request client ctx (some req) w)
  unfolding do_request
  do_request-IsTidy ctx req w = record {
    keeps = honest.keeps _ w;
    accounts = release _ w;
    one = one _ w;
  }

  send_within-IsTidy :
      (net : Net) (d : ℤ) (ctx : Option Context) (req : Request) (w : World)
      → IsTidy w (send_within net d ctx client req w)
  unfolding with_timeout
  send_within-IsTidy net d none req w = record {
    keeps = λ b h. h;
    accounts = Accounts-none w _ (λ b. refl);
    one = inl refl;
  }
  send_within-IsTidy net d (some ctx) req w =
      let (ctx', v) = with_timeout ctx d w in
      let out = do_request client (some ctx') (some req) v in
      let tidy = do_request-IsTidy (some ctx') req v in
      record {
        keeps = λ b h. Keeps-settle ctx'.id out b (tidy.keeps b h);
        accounts =
            Accounts-after w out _ (Keeps-settle ctx'.id out) (OpensNone-settle ctx'.id out)
              (carried_by-settle ctx'.id out) (Accounts-before w v out (λ b. refl) tidy.accounts);
        one = settle-HasOne ctx'.id out tidy.one;
      }

  send-IsTidy :
      (net : Net) (rb : RequestBuilder) (x : Built) (w : World) → IsTidy w (send net rb client x w)
  send-IsTidy net rb (not_built e) w = record {
    keeps = λ b h. h;
    accounts = Accounts-none w _ (λ b. refl);
    one = inr refl;
  }
  send-IsTidy net rb (built req) w = elim (Bool-cases (leb_ℤ rb.timeout (pos 0))) [
    | inl e ↦ rw e (do_request-IsTidy rb.ctx req w)
    | inr e ↦ rw e (send_within-IsTidy net rb.timeout rb.ctx req w)
  ]

  pub execute_method-IsTidy :
      (net : Net) (method url : String) (rb : RequestBuilder) (w : World)
      → IsTidy w (execute_method net client method url rb w)
  unfolding execute_method
  execute_method-IsTidy net method url rb w =
      let rb' = record rb { method = method; url = url } in send-IsTidy net rb' (build net rb') w
