-- ===== src/RateLimit.antt =====
-- services/api/src/rate_limit.rs: the fixed windows that bound how often a subject may try an
-- operation. Instants and intervals are numbers; `duration_since` is 0 for a later instant, as
-- subtraction here is.
pub mod Quota
use Prim.Native.String.{◌++◌ as ◌<>◌}
use ctfdpp.Base.{
  ℕ, ◌+◌, ◌-◌, Bool, true, false, not, ◌||◌, Option, none, some, String, List, ltb, leb, ◌==◌,
  if◌then◌else◌, select, str_eq, eq_iff,
}
use ctfdpp.Base.Keyed.{Eq, get, put}

instance abbrev pub text_eq : Eq String
text_eq = record { beq = str_eq; beq_iff = eq_iff }

pub record Window : Type 0 where
  pub key : String
  pub started : ℕ
  pub count : ℕ
  pub interval : ℕ

abbrev pub window_key : Window → String
window_key w = w.key

-- The arguments of `allow`, with `Instant::now()`.
pub record Request : Type 0 where
  pub now : ℕ
  pub operation : String
  pub subject : String
  pub limit : ℕ
  pub interval : ℕ

abbrev pub request_key : Request → String
request_key r = r.operation <> (":" <> r.subject)

abbrev pub is_live : ℕ → Window → Bool
is_live now w = ltb (now - w.started) w.interval

-- `entry(key).or_insert(…)`
abbrev pub entered : Request → Option Window → Window
entered r (some w) = w
entered r none = record { key = request_key r; started = r.now; count = 0; interval = r.interval }

abbrev pub refreshed : Request → Window → Window
refreshed r w =
    if not (w.interval == r.interval) || leb w.interval (r.now - w.started)
    then record w { started = r.now; count = 0; interval = r.interval }
    else w

abbrev pub charged : Request → List Window → Window → List Window × Bool
charged r windows w =
    if leb r.limit w.count
    then (put window_key w windows, false)
    else (put window_key (record w { count = w.count + 1 }) windows, true)

unfoldable pub allow : Request → List Window → List Window × Bool
allow r windows =
    let kept = select (is_live r.now) windows in
    charged r kept (refreshed r (entered r (get window_key (request_key r) kept)))
