-- ===== src/Gateway/Counted.antt =====
-- pkg/gateway/handle_request.go and check.go over pkg/gateway/ratelimiter and pkg/gateway/quota: what a
-- request that goes on leaves in Redis.
use arks.Prelude.{All, List, some, ◌≡◌, sym, ℕ}
use arks.RateLimiter.Limiter.{Moment, RedisRateLimiter}
use arks.QosConfig.{UserQos}
use arks.Gateway.Messages.{State, HeaderValue, go_on_body, Codec, RequestFields}
use arks.Gateway.Room.{Room}
use arks.Redis.{Redis, RedisView, RedisLaws}
use arks.RateLimiter.Refined.{Represents}
use arks.Prelude.Text.{Text, ok}
use arks.Services.{ConfigProvider}
use arks.RateLimiter.Counting.{Expires}
use arks.Gateway.Stages.{IsCounted, quota_checked}
use arks.Gateway.Request.{handle_request_body}
use mathlib.Core.Path.{subst}
use arks.Gateway.Admitted.{handle_request_body-IsAdmitted}
use arks.Gateway.Wiring.{new_server}
use arks.Gateway.Kept.{one_more, HasRoom, checked-Room, do_request-one_more}

module _ {r : Redis} {v : RedisView r} (l : RedisLaws v) (c : RedisRateLimiter) (at : Moment)
    (prefix : Text) (provider : ConfigProvider r.Store) (codec : Codec) where
  IsCounted-one_more :
      (future : Expires c at) (qos : UserQos) (st after : State r.Store) (f : Text → ℕ)
      → HasRoom f qos.rate_limits
      → Represents l c at st.world f
      → IsCounted (new_server r c at prefix provider codec) qos st after
      → All (Room c at f qos) qos.rate_limits × Represents l c at after.world (one_more c at qos f)
  IsCounted-one_more future qos st after f room h counted =
      let (rooms, h1) = checked-Room l c at prefix provider codec qos st f room h counted.limits in
      let h2 =
        do_request-one_more l c at prefix provider codec future qos
          (quota_checked (new_server r c at prefix provider codec) qos st) f room h1
          counted.counted in
      (rooms, subst (λ w. Represents l c at w (one_more c at qos f)) (sym counted.world) h2)

  -- Over Redis, where every expiry lies in the future: let the store represent the numbers `f`, let the
  -- body parse and its token stand for the qos `qos`, and let the counters have room for its limits. If
  -- the request body then goes on, `f` left room under every rate limit of the user, for one more request
  -- under those that count requests and for no more tokens under those that count tokens, and
  -- the store represents the numbers in which every limit that counts requests has one more under its key.
  pub handle_request_body-one_more :
      (future : Expires c at) (body token : Text) (st : State r.Store) (headers : List HeaderValue)
      (f : Text → ℕ) (req : RequestFields) (qos : UserQos)
      → codec.parse_request body ≡ some req
      → provider.get_qos_by_token token req.model st.world ≡ ok (some qos)
      → HasRoom f qos.rate_limits
      → Represents l c at st.world f
      → (handle_request_body (new_server r c at prefix provider codec) body token st).0.resp
        ≡ go_on_body headers
      → All (Room c at f qos) qos.rate_limits
        × Represents l c at
            (handle_request_body (new_server r c at prefix provider codec) body token st).1.world
            (one_more c at qos f)
  handle_request_body-one_more future body token st headers f req qos parsed authorized room h go =
      let a =
        handle_request_body-IsAdmitted (new_server r c at prefix provider codec) body token st
          headers go in
      let same : a.req ≡ req = cc (a.parsed, parsed) in
      let who : a.qos ≡ qos = cc (a.authorized, authorized, same) in
      let counted =
        subst
          (λ q.
            IsCounted (new_server r c at prefix provider codec) q st
              (handle_request_body (new_server r c at prefix provider codec) body token st).1)
          who a.counted in
      IsCounted-one_more future qos st
        (handle_request_body (new_server r c at prefix provider codec) body token st).1 f room h
        counted
