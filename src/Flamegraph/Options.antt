-- ===== src/Flamegraph/Options.antt =====
-- flamegraph_pl.go: the script, the options of the agent, and the arguments that it passes.
use application_profiler.Base.{Bool, false, ◌&&◌, List, [], ◌∷◌, ◌++◌, String, if◌then◌else◌}
use application_profiler.External.{External}

-- `FlameGrapherScript`
pub record Script : Type 0 where
  pub path : String
  pub title : String
  pub subtitle : String
  pub width : String
  pub height : String
  pub min_width : String
  pub font_type : String
  pub font_size : String
  pub count_name : String
  pub name_type : String
  pub colors : String
  pub bg_colors : String
  pub hash : Bool
  pub reverse : Bool
  pub inverted : Bool
  pub flame_chart : Bool
  pub negate : Bool

abbrev pub default_script : Script
default_script = record {
  path = "/app/FlameGraph/flamegraph.pl";
  title = "CPU Flamegraph";
  subtitle = "";
  width = "1800";
  height = "16";
  min_width = "";
  font_type = "Verdana";
  font_size = "12";
  count_name = "";
  name_type = "";
  colors = "";
  bg_colors = "";
  hash = false;
  reverse = false;
  inverted = false;
  flame_chart = false;
  negate = false;
}

-- The functions `With…`, as the values that they are given.
pub data ScriptOption : Type 0 where
  with_path : String → ScriptOption
  with_title : String → ScriptOption
  with_subtitle : String → ScriptOption
  with_width : String → ScriptOption
  with_height : String → ScriptOption
  with_min_width : String → ScriptOption
  with_font_type : String → ScriptOption
  with_font_size : String → ScriptOption
  with_count_name : String → ScriptOption
  with_name_type : String → ScriptOption
  with_colors : String → ScriptOption
  with_bg_colors : String → ScriptOption
  with_hash : Bool → ScriptOption
  with_reverse : Bool → ScriptOption
  with_inverted : Bool → ScriptOption
  with_flame_chart : Bool → ScriptOption
  with_negate : Bool → ScriptOption

module _ (x : External) where
  unfoldable pub apply : ScriptOption → Script → Script
  apply (with_path v) s = if x.is_not_blank v then record s { path = v } else s
  apply (with_title v) s = if x.is_not_blank v then record s { title = v } else s
  apply (with_subtitle v) s = record s { subtitle = v }
  apply (with_width v) s = if x.is_not_blank v && x.is_numeric v then record s { width = v } else s
  apply (with_height v) s =
      if x.is_not_blank v && x.is_numeric v then record s { height = v } else s
  apply (with_min_width v) s = if x.is_numeric v then record s { min_width = v } else s
  apply (with_font_type v) s = record s { font_type = v }
  apply (with_font_size v) s = if x.is_numeric v then record s { font_size = v } else s
  apply (with_count_name v) s = record s { count_name = v }
  apply (with_name_type v) s = record s { name_type = v }
  apply (with_colors v) s = record s { colors = v }
  apply (with_bg_colors v) s = record s { bg_colors = v }
  apply (with_hash v) s = record s { hash = v }
  apply (with_reverse v) s = record s { reverse = v }
  apply (with_inverted v) s = record s { inverted = v }
  apply (with_flame_chart v) s = record s { flame_chart = v }
  apply (with_negate v) s = record s { negate = v }

  unfoldable pub apply_all : List ScriptOption → Script → Script
  unfolding apply
  apply_all [] s = s
  apply_all (o ∷ os) s = apply_all os (apply o s)

  -- `NewFlameGrapherScript`
  unfoldable pub new_script : List ScriptOption → Script
  unfolding apply_all
  new_script options = apply_all options default_script

  abbrev text_argument : String → String → List String
  text_argument name v = if x.is_not_blank v then name ∷ v ∷ [] else []

  abbrev flag : String → Bool → List String
  flag name v = if v then name ∷ [] else []

  -- `scriptToArguments`
  unfoldable pub script_to_arguments : Script → List String
  script_to_arguments g =
      ("--title" ∷ g.title ∷ "--width" ∷ g.width ∷ "--height" ∷ g.height ∷ "--fonttype"
        ∷ g.font_type ∷ "--fontsize" ∷ g.font_size ∷ [])
      ++ (text_argument "--subtitle" g.subtitle
          ++ (text_argument "--minwidth" g.min_width
              ++ (text_argument "--countname" g.count_name
                  ++ (text_argument "--nametype" g.name_type
                      ++ (text_argument "--colors" g.colors
                          ++ (text_argument "--bgcolors" g.bg_colors
                              ++ (flag "--hash" g.hash
                                  ++ (flag "--reverse" g.reverse
                                      ++ (flag "--inverted" g.inverted
                                          ++ (flag "--flamechart" g.flame_chart
                                              ++ flag "--negate" g.negate))))))))))
