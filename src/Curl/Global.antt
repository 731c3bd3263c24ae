-- ===== src/Curl/Global.antt =====
-- The state that the requests of code/aws/curl share: InitGlobalState and CleanupGlobalState of
-- HttpClient.cpp, and the factory of code/aws/curl/HttpClientFactory.cpp that calls them.
use lab_cpp.Base.{◌≡◌, Bool, true, false, List, [], ◌∷◌, ◌++◌, if◌then◌else◌, arith}
use lab_cpp.Base.Text.{Text, codes}
use lab_cpp.Curl.Options.{ClientConfiguration, CurlHttpClient, construct}
use lab_cpp.Sdk.{
  LogLevel, ApiCall, init_api, shutdown_api, SdkCall, initializes, finalizes, Sdk,
  initialize_aws_sdk, finalize_aws_sdk,
}

-- `isInit`; whether curl is set up, between `curl_global_init` and `curl_global_cleanup`; and whether
-- SIGPIPE has a handler.
pub record Global : Type 0 where
  pub is_init : Bool
  pub curl_ready : Bool
  pub swallows_sigpipe : Bool

unfoldable pub nothing_set_up : Global
nothing_set_up = record { is_init = false; curl_ready = false; swallows_sigpipe = false }

unfoldable pub init_global_state : Global → Global
init_global_state g = if g.is_init then g else record g { is_init = true; curl_ready = true }

unfoldable pub cleanup_global_state : Global → Global
cleanup_global_state g = record g { curl_ready = false }

-- s_InitCleanupCurlFlag and s_InstallSigPipeHandler.
abbrev pub init_cleanup_curl_flag : Bool
init_cleanup_curl_flag = true

abbrev pub install_sig_pipe_handler : Bool
install_sig_pipe_handler = false

unfoldable pub init_static_state : Global → Global
unfolding init_global_state
init_static_state g =
    let h = if init_cleanup_curl_flag then init_global_state g else g in
    if install_sig_pipe_handler then record h { swallows_sigpipe = true } else h

unfoldable pub cleanup_static_state : Global → Global
unfolding cleanup_global_state
cleanup_static_state g = if init_cleanup_curl_flag then cleanup_global_state g else g

-- LogAndSwallowHandler: what it logs of a signal.
unfoldable pub log_and_swallow : (is_sigpipe : Bool) → Text → Text
log_and_swallow true signal = codes "Received a SIGPIPE error"
log_and_swallow false signal = codes "Unhandled system SIGNAL error" ++ signal

-- CreateHttpClient, which ignores the number of connections that the configuration allows.
unfoldable pub create_http_client : Text → ClientConfiguration → CurlHttpClient
unfolding construct
create_http_client aws_global config = construct aws_global config

-- The SDK has InitAPI call InitStaticState of the factory, and ShutdownAPI CleanupStaticState.
unfoldable pub hear : ApiCall → Global → Global
unfolding init_static_state cleanup_static_state
hear (init_api level) g = init_static_state g
hear shutdown_api g = cleanup_static_state g

-- InitializeAwsSdk and FinalizeAwsSdk with what their calls of the SDK do to curl.
unfoldable pub call_sdk : SdkCall → Sdk × Global → Sdk × Global
unfolding initialize_aws_sdk finalize_aws_sdk hear
call_sdk (initializes level) (s, g) =
    (initialize_aws_sdk level s, if s.aws_initialized then g else hear (init_api level) g)
call_sdk finalizes (s, g) = (finalize_aws_sdk s, hear shutdown_api g)

unfoldable pub call_all : List SdkCall → Sdk × Global → Sdk × Global
unfolding call_sdk
call_all [] s = s
call_all (c ∷ cs) s = call_all cs (call_sdk c s)

call_sdk-spent :
    (c : SdkCall) (s : Sdk) (g : Global)
    → g.is_init ≡ true
    → g.curl_ready ≡ false
    → ((call_sdk c (s, g)).1.is_init ≡ true) × ((call_sdk c (s, g)).1.curl_ready ≡ false)
unfolding call_sdk
call_sdk-spent (initializes level) s g i r = ground arith
call_sdk-spent finalizes s g i r = ground arith

call_all-spent :
    (cs : List SdkCall) (s : Sdk) (g : Global)
    → g.is_init ≡ true
    → g.curl_ready ≡ false
    → (call_all cs (s, g)).1.curl_ready ≡ false
unfolding call_all
call_all-spent [] s g i r = r
call_all-spent (c ∷ cs) s g i r =
    let (i2, r2) = call_sdk-spent c s g i r in
    call_all-spent cs (call_sdk c (s, g)).0 (call_sdk c (s, g)).1 i2 r2

lived :
    (level : LogLevel) (s : Sdk) (g : Global)
    → s.aws_initialized ≡ false
    → ((call_sdk finalizes (call_sdk (initializes level) (s, g))).1.is_init ≡ true)
      × ((call_sdk finalizes (call_sdk (initializes level) (s, g))).1.curl_ready ≡ false)
unfolding call_sdk
lived level s g n = ground arith

-- A second life of the SDK has no curl: once a program has initialised and finalised the SDK, curl is
-- not set up again, whatever the program calls afterwards.
pub curl_not_revived :
    (level : LogLevel) (cs : List SdkCall) (s : Sdk) (g : Global)
    → s.aws_initialized ≡ false
    → (call_all (initializes level ∷ finalizes ∷ cs) (s, g)).1.curl_ready ≡ false
unfolding call_all
curl_not_revived level cs s g n =
    let (i, r) = lived level s g n in
    call_all-spent cs (call_sdk finalizes (call_sdk (initializes level) (s, g))).0
      (call_sdk finalizes (call_sdk (initializes level) (s, g))).1 i r
