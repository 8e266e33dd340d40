-- ===== src/Api/Langs.antt =====
-- api/langs.go
use application_profiler.Base.{Bool, true, List, [], ◌∷◌, String, ◌==◌, if◌then◌else◌}
use application_profiler.External.{External}

abbrev pub ProgrammingLanguage : Type 0
ProgrammingLanguage = String

abbrev pub java : ProgrammingLanguage
java = "java"

abbrev pub go : ProgrammingLanguage
go = "go"

abbrev pub python : ProgrammingLanguage
python = "python"

abbrev pub ruby : ProgrammingLanguage
ruby = "ruby"

abbrev pub node : ProgrammingLanguage
node = "node"

abbrev pub clang : ProgrammingLanguage
clang = "clang"

abbrev pub clang_plus_plus : ProgrammingLanguage
clang_plus_plus = "clang++"

abbrev pub rust : ProgrammingLanguage
rust = "rust"

abbrev pub fake_lang : ProgrammingLanguage
fake_lang = "fake"

abbrev pub supported_langs : List ProgrammingLanguage
supported_langs = java ∷ go ∷ python ∷ ruby ∷ node ∷ clang ∷ clang_plus_plus ∷ rust ∷ []

abbrev pub available_languages : List ProgrammingLanguage
available_languages = supported_langs

unfoldable pub is_supported_language : External → String → Bool
is_supported_language x lang =
    if lang == fake_lang then true else x.contains available_languages lang
