-- ===== src/Playground/Programs.antt =====
-- What surrounds the handlers of code/playground: the variables that parquet-raw-reader.cc and
-- parquet-arrow-reader.cc read before main, and main itself, which is that of query-bandwidth.cc too.
use lab_cpp.Base.{ℕ, ◌+◌, ◌≡◌, refl, Bool, true, false, Option, some, List, [], ◌∷◌}
use lab_cpp.Base.Int.{ℤ, pos}
use lab_cpp.Base.Text.{Text, codes, text_eq}
use lab_cpp.Base.Status.{Outcome, returns, throws}
use lab_cpp.Toolbox.{getenv_int, getenv_bool, getenv}
use lab_cpp.Sdk.{
  Sdk, off, init_api, shutdown_api, not_initialized, initialize_aws_sdk, finalize_aws_sdk, Entry,
  printed, bootstrap,
}
use lab_cpp.Download.Downloader.{SdkOptions}
use lab_cpp.Playground.Bandwidth.Handling.{sdk_options}

abbrev pub Environment : Type 0
Environment = Text → Option Text

-- The initialisers run in their order, and an exception in one of them ends the program.
abbrev pub then_read : {A B : Type 0} → Outcome A → (A → Outcome B) → Outcome B
then_read (throws e) rest = throws e
then_read (returns a) rest = rest a

pub record QuerySettings : Type 0 where
  pub max_concurrent_dl : ℤ
  pub nb_conn_init : ℤ
  pub column_id : ℤ
  pub is_local : Bool
  pub bucket_name : Text
  pub key_name : Text

unfoldable pub query_settings : Environment → Outcome QuerySettings
unfolding getenv_int getenv_bool getenv
query_settings env =
    then_read (getenv_int (env (codes "MAX_CONCURRENT_DL")) (pos 8)) (λ max_concurrent_dl.
      then_read (getenv_int (env (codes "NB_CONN_INIT")) (pos 1)) (λ nb_conn_init.
        then_read (getenv_int (env (codes "COLUMN_ID")) (pos 16)) (λ column_id. returns (record {
          max_concurrent_dl = max_concurrent_dl;
          nb_conn_init = nb_conn_init;
          column_id = column_id;
          is_local = getenv_bool (env (codes "IS_LOCAL")) false;
          bucket_name = getenv (env (codes "BUCKET_NAME")) (codes "defaultbucket");
          key_name = getenv (env (codes "KEY_NAME")) (codes "default.parquet");
        }))))

-- AS_DICT of parquet-arrow-reader.cc, whether the column is read as a dictionary.
unfoldable pub as_dict : Environment → Bool
unfolding getenv_bool
as_dict env = getenv_bool (env (codes "AS_DICT")) true

-- What main does: its lines on std::cout, the SDK while `bootstrap` runs, what `bootstrap` comes to,
-- and the SDK at the end.
pub record MainRun (Request Response : Type 0) : Type 0 where
  pub out : List Text
  pub sdk_inside : Sdk
  pub entry : Entry Request Response
  pub sdk_after : Sdk

module _ {Request Response : Type 0} (env : Environment) (request : Request) where
  unfoldable pub run_main :
      (handler : SdkOptions → Request → ℕ → Response × ℕ)
      → (container_runs : ℕ) → Sdk
      → MainRun Request Response
  unfolding initialize_aws_sdk sdk_options bootstrap finalize_aws_sdk getenv_bool
  run_main handler container_runs sdk =
      let inside = initialize_aws_sdk off sdk in
      let (options, lines) = sdk_options (getenv_bool (env (codes "IS_LOCAL")) false) in
      record {
        out = lines;
        sdk_inside = inside;
        entry = bootstrap (env (codes "IS_LOCAL")) request container_runs (handler options);
        sdk_after = finalize_aws_sdk inside;
      }

  -- Where IS_LOCAL is "true", main runs the handler once, on the options of the local store and with the
  -- run counted, inside one life of the SDK that begins and ends in it.
  pub main_runs_once :
      (handler : SdkOptions → Request → ℕ → Response × ℕ) (container_runs : ℕ)
      → env (codes "IS_LOCAL") ≡ some (codes "true")
      → let run = run_main handler container_runs not_initialized in
        let (response, runs) = handler (sdk_options true).0 request (container_runs + 1) in
        (run.entry ≡ printed response runs)
        × (run.sdk_inside.aws_initialized ≡ true)
        × (run.sdk_after.aws_initialized ≡ false)
        × (run.sdk_after.calls ≡ shutdown_api ∷ init_api off ∷ [])
  unfolding run_main not_initialized text_eq
  main_runs_once handler container_runs e = (rw e refl, refl, refl, refl)
