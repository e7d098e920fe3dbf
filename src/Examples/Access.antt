-- ===== src/Examples/Access.antt =====
-- Credentials and the region router at concrete inputs.
use proxyfleet.Base.{true, false, some, [], ◌∷◌, Bytes, codes, refl, bytes_discrete, arith, lookup}
use proxyfleet.Config.Sessions.{
  has_control, all_session_bytes, valid_proxy_session_id, valid_session_credentials,
}
use proxyfleet.Config.Sessions.Wire.{Carried, wire_name-Carried}
use proxyfleet.Geoip.Router.{
  Router, authorize_and_select_region, authorize_credentials, authorize_region, region_in,
  has_suffix, dialer_for, serve_http,
}
use proxyfleet.Geoip.Router.Access.{Access, serve_http-Access}
use proxyfleet.Geoip.Lifecycle.{
  Surroundings, Life, new_life, start, start_in, start_new, begin_stop, begin_stop_in, Reaches,
  here, then_step, starts, begins_stop, ends_stop,
}
use proxyfleet.Geoip.Lifecycle.Stopping.{OneLife, reaches-OneLife}

wire_name-Carried_example : Carried (codes "crawler") (codes "acc-1")
unfolding has_control all_session_bytes valid_proxy_session_id valid_session_credentials
wire_name-Carried_example =
    wire_name-Carried (codes "crawler") (codes "secret") (codes "acc-1") refl refl

-- Lower-casing leaves a text that is in lower case.
abbrev same_text : Bytes → Bytes
same_text s = s

abbrev guarded : Router
guarded = record {
  cfg = record { username = codes "crawler@jp"; password = codes "secret" };
  pools = (codes "us", some 4) ∷ [];
  global = some 1;
}

serve_http-Access_example :
    Access same_text guarded (some (codes "crawler@jp@us", codes "secret")) 4
unfolding serve_http authorize_and_select_region authorize_credentials authorize_region region_in
    has_suffix dialer_for lookup bytes_discrete
serve_http-Access_example =
    serve_http-Access same_text guarded (some (codes "crawler@jp@us", codes "secret")) 4 refl refl

-- The address can be bound, and the context lives on.
abbrev free_port : Surroundings
free_port = record { cancelled = false; binds = true; cancelled_later = false }

-- A start, a second one, two stops at the same time, and a start again.
abbrev a_life : (l : Life) × Reaches new_life l
unfolding begin_stop begin_stop_in start new_life start_in start_new
a_life = (
  _,
  then_step
      (then_step
        (then_step
          (then_step (then_step (then_step here (starts free_port)) (starts free_port)) begins_stop)
          begins_stop)
        (ends_stop (some 5) (omega arith)))
      (starts free_port),
)

reaches-OneLife_example : OneLife a_life.0
reaches-OneLife_example = reaches-OneLife a_life.1
