-- ===== src/Server.antt =====
-- cmd/api/main.go: the interceptors around every handler of the server that `Run` starts. Package
-- grpc is not read: `ChainUnaryInterceptor` is modelled as documented, the first interceptor of the
-- list being the outermost.
pub mod Laws
use be_auction_lot.Prelude.{Bool, Option, List, [], ◌∷◌}
use be_auction_lot.AppError.{GoError}
use be_auction_lot.Valid.{WithDetails, Reply, validate, error_response_interceptor}

-- `grpc.UnaryHandler` on a state, and `grpc.UnaryServerInterceptor`
abbrev pub Handler : Type 0 → Type 0 → Type 0 → Type 0
Handler W Req Resp = Req → W → Reply Resp × W

abbrev pub Interceptor : Type 0 → Type 0 → Type 0 → Type 0
Interceptor W Req Resp = Handler W Req Resp → Handler W Req Resp

module _ {W Req Resp : Type 0} where
  unfoldable pub chain_unary_interceptor : List (Interceptor W Req Resp) → Interceptor W Req Resp
  chain_unary_interceptor [] handler = handler
  chain_unary_interceptor (i ∷ is) handler = i (chain_unary_interceptor is handler)

  -- The option of the server, for one handler.
  unfoldable pub served :
      {Msg : Type 0}
      → WithDetails
      → (GoError → Bool)
      → (Req → Option Msg)
      → (Msg → GoError)
      → Interceptor W Req Resp
  unfolding chain_unary_interceptor validate error_response_interceptor
  served with_details is_status as_message validator = chain_unary_interceptor (
      validate with_details as_message validator
      ∷ (error_response_interceptor with_details is_status ∷ []))
