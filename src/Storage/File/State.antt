-- ===== src/Storage/File/State.antt =====
-- app/storage/file_backend.py: the state of `FileBackend`, and how it reaches its files.
-- The directory is there and is no symbolic link, no file operation of the host fails, and
-- `_atomic_write` replaces a file at once; directories that hold no file are not kept. A method
-- is one step, as it awaits nothing but its own file operations while it holds the lock; the
-- reads that take no lock are steps too.
use agentstrata.Json.{Json}
use agentstrata.Prelude.{
  Bool, List, Option, String, String_discrete, [], false, if◌then◌else◌, ite, keep_if, map, none,
  not, some, true, ℕ, ◌&&◌,
}
use agentstrata.Prelude.Dict.{Dict, get, pop, put}
use agentstrata.Storage.Contract.{StorageError, StorageSettings, backend_unavailable}
use agentstrata.Storage.File.Names.{glob, safe_component, session_file}
use agentstrata.Storage.Model.{Fence, SessionKey}
use agentstrata.Storage.Parsing.{IsoFormat, Parsed, outside, parsed, type_error, value_error}
use agentstrata.Text.{Text, text_discrete}

-- What the program takes from the host: times as texts, the SHA-256 digest of a principal, and
-- the order in which a directory is listed.
pub record Host : Type 0 where
  pub iso : IsoFormat
  pub digest : String → String
  pub listing : List Text → List Text

-- {agent_name} and {principal_digest}
abbrev pub Directory : Type 0
Directory = String × String

abbrev pub FilePath : Type 0
FilePath = Directory × Text

unfoldable pub directory_discrete : Discrete Directory
unfolding String_discrete
directory_discrete = hlevel String_discrete

unfoldable pub path_discrete : Discrete (Directory × Text)
unfolding String_discrete text_discrete
path_discrete = hlevel (String_discrete, text_discrete)

-- A file holds the value that its text stands for, or no JSON. The fences are those of the
-- process, under the digest of the principal.
pub record FileBackend : Type 0 where
  pub settings : StorageSettings
  pub files : Dict FilePath (Option Json)
  pub fences : Dict SessionKey Fence
  pub fence_counters : Dict SessionKey ℕ
  pub ready : Bool
  pub closed : Bool

-- What a method does: it returns, it raises one of the storage errors, or an exception of the
-- parser that is no `ValueError` passes through it.
pub data Answer (A : Type 0) : Type 0 where
  done : A → Answer A
  refuse : StorageError → Answer A
  crash : Answer A

abbrev pub Io : Type 0 → Type 0
Io A = FileBackend → Answer A × FileBackend

abbrev pub after : {A B : Type 0} → (A → Io B) → Answer A × FileBackend → Answer B × FileBackend
after f (done a, b) = f a b
after f (refuse e, b) = (refuse e, b)
after f (crash, b) = (crash, b)

infixl 5 ◌>>=◌
abbrev pub ◌>>=◌ : {A B : Type 0} → Io A → (A → Io B) → Io B
m >>= f = λ b. after f (m b)

abbrev pub pure : {A : Type 0} → A → Io A
pure a b = (done a, b)

abbrev pub throw : {A : Type 0} → StorageError → Io A
throw e b = (refuse e, b)

-- __init__
unfoldable pub init : StorageSettings → FileBackend
init settings = record {
  settings = settings;
  files = [];
  fences = [];
  fence_counters = [];
  ready = false;
  closed = false;
}

-- The probe succeeds, as no file operation fails.
unfoldable pub initialize : Io Unit
initialize b = (done tt, record b { ready = true })

unfoldable pub close : Io Unit
close b = (done tt, record b { closed = true; ready = false })

unfoldable pub health : FileBackend → Bool
health b = b.ready && not b.closed

-- if not self._ready: raise
unfoldable pub require_ready : Io Unit
require_ready b = if b.ready then (done tt, b) else (refuse backend_unavailable, b)

-- _atomic_write(path, record.to_json())
unfoldable pub write : FilePath → Json → Io Unit
unfolding path_discrete
write path doc b = (done tt, record b { files = put path_discrete path (some doc) b.files })

-- path.unlink(missing_ok=True)
unfoldable pub unlink : FilePath → Io Unit
unfolding path_discrete
unlink path b = (done tt, record b { files = pop path_discrete path b.files })

-- try: return parser(raw), except ValueError: return None
unfoldable pub tried : {A : Type 0} → Parsed A → Answer (Option A)
tried (parsed a) = done (some a)
tried value_error = done none
tried type_error = crash
tried outside = crash

-- What a parser makes of a file's value; a text that is no JSON is a `ValueError`.
unfoldable pub parse : {A : Type 0} → (Json → Parsed A) → Option (Option Json) → Answer (Option A)
unfolding tried
parse parser none = done none
parse parser (some none) = done none
parse parser (some (some doc)) = tried (parser doc)

-- _read_record
unfoldable pub read_record : {A : Type 0} → FilePath → (Json → Parsed A) → Io (Option A)
unfolding parse path_discrete
read_record path parser b = (parse parser (get path_discrete path b.files), b)

module _ (host : Host) where
  -- _session_dir
  unfoldable pub session_dir : String → String → Io Directory
  unfolding safe_component
  session_dir agent_name principal_id b =
      if safe_component agent_name && safe_component (host.digest principal_id)
      then (done (agent_name, host.digest principal_id), b)
      else (refuse backend_unavailable, b)

  -- _session_path
  unfoldable pub session_path : SessionKey → Io FilePath
  unfolding session_dir safe_component session_file
  session_path key b =
      if safe_component key.2
      then (session_dir key.0 key.1 >>= λ directory. pure (directory, session_file key.2)) b
      else (refuse backend_unavailable, b)

  -- The names in a directory that match f"{prefix}*.json", as the host lists them.
  unfoldable pub glob_names : Directory → Text → FileBackend → List Text
  unfolding glob keep_if directory_discrete
  glob_names directory prefix b = keep_if (glob prefix) (
      host.listing (
        map (λ e. e.0.1)
          (keep_if
            (λ (e : FilePath × Option Json). ite (directory_discrete e.0.0 directory) true false)
            b.files)))
