-- ===== src/Breaker/Registry.antt =====
-- `BreakerRegistry`: one breaker for each source, made when the source is first asked for.
use null.Prelude.{String, ◌≡◌, ◌≢◌, some, arith}
use null.Dict.{lookup, lookup-insert_self, lookup-insert_ne}
use null.Breaker.{CircuitPolicy, CircuitBreaker, new_breaker, BreakerRegistry, get_breaker}

-- After `get` the registry holds the breaker that was returned; a second `get` of the same source
-- returns that breaker and changes nothing, whatever policy it is given; other sources keep theirs.
pub get_breaker-stable :
    (id other : String) (policy later : CircuitPolicy) (store : BreakerRegistry)
    → let (b, store') = get_breaker id policy store in
      (lookup id store' ≡ some b)
      × (get_breaker id later store' ≡ (b, store'))
      × (id ≢ other → lookup other store' ≡ lookup other store)
unfolding get_breaker
get_breaker-stable id other policy later store = ground (
  arith,
  lookup-insert_self id (new_breaker id policy) store,
  lookup-insert_ne id other (new_breaker id policy) store,
)

pub get_breaker_known :
    (id : String) (policy : CircuitPolicy) (store : BreakerRegistry) (b : CircuitBreaker)
    → lookup id store ≡ some b
    → get_breaker id policy store ≡ (b, store)
unfolding get_breaker
get_breaker_known id policy store b h = ground arith
