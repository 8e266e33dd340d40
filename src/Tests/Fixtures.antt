-- ===== src/Tests/Fixtures.antt =====
-- The called packages, instantiated by functions that meet their documentation.
use application_profiler.Base.{
  ℕ, ◌*◌, ◌/◌, refl, Bool, true, not, ◌&&◌, ◌||◌, String, elem, leb, none, ok, Result, ◌<>◌,
}
use application_profiler.Base.Int.{pos}
use application_profiler.Base.Text.{all_space, has_prefix}
use Prim.Native.Char.{code}
use application_profiler.Compressor.{Compressor}
use application_profiler.Os.{Os}
use application_profiler.FileSystem.{put}
use application_profiler.Profilers.Env.{Env}
use application_profiler.External.{External, IsLawful}
use application_profiler.Durations.{parse_duration}
use application_profiler.Action.GetJob.{ParseDuration}

abbrev pub all_digits : String → Bool
all_digits String.[] = true
all_digits (String.◌∷◌ c s) = leb b'0' (code c) && leb (code c) b'9' && all_digits s

unfoldable pub occurs : String → String → Bool
unfolding has_prefix
occurs String.[] part = has_prefix part String.[]
occurs (String.◌∷◌ c s) part = has_prefix part (String.◌∷◌ c s) || occurs s part

abbrev pub packages : External
packages = record {
  is_blank = all_space;
  is_not_blank = λ s. not (all_space s);
  is_numeric = all_digits;
  contains_text = occurs;
  contains_ignore_case = occurs;
  contains = λ xs a. elem a xs;
}

pub packages-IsLawful : IsLawful packages
packages-IsLawful = record {
  blank_lem = λ s. refl;
  not_blank_lem = λ s. refl;
  contains_lem = λ xs a. refl;
}

-- A fraction of a unit, rounded down.
abbrev pub scaled : ℕ → ℕ → ℕ → ℕ
scaled f unit scale = f * unit / scale

abbrev pub quote : String → String
quote s = "\"" <> s <> "\""

unfoldable pub durations : ParseDuration
unfolding parse_duration
durations = parse_duration quote scaled

-- A system on which each command prints one line and writes one file, and nothing fails.
abbrev pub machine : Os
machine = record {
  exec = λ c input fs. record {
    stdout = "main;work 1\n";
    stderr = "";
    error = none;
    files = put "/tmp/x.gz.aa" "part" (put "/tmp/x.gz" "zipped" fs);
  };
  open_error = λ f fs. none;
  create_error = λ f fs. none;
  remove_error = λ f fs. none;
  rename_error = λ f g fs. none;
  remove_tree = λ d fs. (none, fs);
  symlink = λ a b fs. (none, fs);
  kill = λ p n. none;
  meanwhile = λ fs. fs;
  tmp_dir = "/tmp";
  md5 = λ s. "0a";
}

abbrev pub encoded : Compressor → String → Result String
encoded c s = ok ("z" <> s)

abbrev pub env : Env
env = record {
  packages = packages;
  os = machine;
  encode = encoded;
  containers = record {
    root_file_system_location = λ c i p. ok "/root";
    pid = λ c i p. ok "7";
    cwd = λ c i p. ok "/cwd";
  };
  commander = λ c. record { stdout = ""; stderr = ""; error = none };
  fuel = 3;
  clock = λ w w'. pos 0;
  text = λ e. "failed";
}
