-- ===== src/Sdk.antt =====
-- code/aws/sdk-init.cc: the AWS SDK is set up once and taken down; and the connection options of
-- code/aws/downloader.cc and the entry of a function in code/util/bootstrap.h.
use lab_cpp.Base.{
  ℕ, ◌≡◌, refl, Bool, true, false, Option, none, some, List, [], ◌∷◌, if◌then◌else◌, arith,
}
use lab_cpp.Base.Text.{Text, codes, text_eq}
use lab_cpp.Logger.{increment_run_counter}
use lab_cpp.Toolbox.{getenv_bool}

pub data LogLevel : Type 0 where
  off fatal error warn info debug trace : LogLevel

-- A call of the SDK: InitAPI with a level for its log, or ShutdownAPI.
pub data ApiCall : Type 0 where
  init_api : LogLevel → ApiCall
  shutdown_api : ApiCall

-- `aws_initialized`, the level in `aws_options`, and the calls so far, the last one first.
pub record Sdk : Type 0 where
  pub aws_initialized : Bool
  pub log_level : LogLevel
  pub calls : List ApiCall

unfoldable pub not_initialized : Sdk
not_initialized = record { aws_initialized = false; log_level = off; calls = [] }

unfoldable pub initialize_aws_sdk : LogLevel → Sdk → Sdk
initialize_aws_sdk level s =
    if s.aws_initialized
    then s
    else record { aws_initialized = true; log_level = level; calls = init_api level ∷ s.calls }

unfoldable pub finalize_aws_sdk : Sdk → Sdk
finalize_aws_sdk s = record s { aws_initialized = false; calls = shutdown_api ∷ s.calls }

-- `scheme` of SdkOptions, as `common_config` reads it; another one makes it throw.
pub data Scheme : Type 0 where
  http https : Scheme

unfoldable pub common_config : Text → Option Scheme
common_config scheme =
    if text_eq scheme (codes "http")
    then some http
    else (if text_eq scheme (codes "https") then some https else none)

-- `bootstrap`: locally the handler runs once, and its response is printed; otherwise the runtime gets
-- it. Each run of it counts first.
pub data Entry (Request Response : Type 0) : Type 0 where
  printed : Response → ℕ → Entry Request Response
  handed_over : (Request → ℕ → Response × ℕ) → Entry Request Response

unfoldable pub bootstrap :
    {Request Response : Type 0}
    → Option Text
    → Request
    → ℕ
    → (Request → ℕ → Response × ℕ)
    → Entry Request Response
unfolding increment_run_counter getenv_bool
bootstrap {Request = Request} {Response = Response} is_local request container_runs handler =
    let wrapped : Request → ℕ → Response × ℕ = λ r runs. handler r (increment_run_counter runs) in
    let (response, runs) = wrapped request container_runs in
    if getenv_bool is_local false then printed response runs else handed_over wrapped

-- What a program does with the SDK.
pub data SdkCall : Type 0 where
  initializes : LogLevel → SdkCall
  finalizes : SdkCall

unfoldable pub run_sdk : List SdkCall → Sdk → Sdk
unfolding initialize_aws_sdk finalize_aws_sdk
run_sdk [] s = s
run_sdk (initializes level ∷ calls) s = run_sdk calls (initialize_aws_sdk level s)
run_sdk (finalizes ∷ calls) s = run_sdk calls (finalize_aws_sdk s)

abbrev pub starts_open : List ApiCall → Bool
starts_open [] = false
starts_open (init_api level ∷ calls) = true
starts_open (shutdown_api ∷ calls) = false

-- No InitAPI comes right after another one; the last call is at the head.
abbrev pub Alternates : List ApiCall → Type 0
Alternates [] = Unit {0}
Alternates (init_api level ∷ calls) = (starts_open calls ≡ false) × Alternates calls
Alternates (shutdown_api ∷ calls) = Alternates calls

run_sdk-Alternates :
    (calls : List SdkCall) (s : Sdk)
    → starts_open s.calls ≡ s.aws_initialized
    → Alternates s.calls
    → (starts_open (run_sdk calls s).calls ≡ (run_sdk calls s).aws_initialized)
      × Alternates (run_sdk calls s).calls
unfolding run_sdk initialize_aws_sdk finalize_aws_sdk
run_sdk-Alternates [] s o a = (o, a)
run_sdk-Alternates (initializes level ∷ calls) s o a =
    run_sdk-Alternates calls (initialize_aws_sdk level s) (ground arith) (ground arith)
run_sdk-Alternates (finalizes ∷ calls) s o a = run_sdk-Alternates calls (finalize_aws_sdk s) refl a

-- Whatever a program calls, the SDK is never initialised twice without a shutdown in between, and
-- `aws_initialized` says whether the last call of the SDK's API was InitAPI.
pub inits_alternate :
    (calls : List SdkCall)
    → (starts_open (run_sdk calls not_initialized).calls
        ≡ (run_sdk calls not_initialized).aws_initialized)
      × Alternates (run_sdk calls not_initialized).calls
unfolding not_initialized
inits_alternate calls = run_sdk-Alternates calls not_initialized refl tt
