-- ===== src/Telegraf/Tests.antt =====
-- The theorems on Telegraf's configuration at known texts, and a configuration that is rendered.
use live_streaming_data_pipe.Base.{
  ◌≡◌, refl, Text, text_eq, codes, true, none, some, [], ◌∷◌, ◌++◌, arith,
}
use live_streaming_data_pipe.Base.Exec.{ok}
use live_streaming_data_pipe.Base.Int.{pos}
use live_streaming_data_pipe.Json.{Value, str, arr}
use live_streaming_data_pipe.Repo.Tests.{p1_config}
use live_streaming_data_pipe.Sources.{Numbers, opcua_environment}
use live_streaming_data_pipe.Telegraf.{Disk, toml, texts, connector_dir, render_telegraf_config}
use live_streaming_data_pipe.Telegraf.Reader.{basic_string, string_array}
use live_streaming_data_pipe.Telegraf.RoundTrip.{string_array-toml}
use live_streaming_data_pipe.Telegraf.Wide.{basic_string-toml_wide}

abbrev pub numbers : Numbers
numbers = record { float_str = λ x. codes "1.0"; float_of = λ t. ok 0; int_of = λ t. ok (pos 500) }

abbrev no_text : Value → Text
no_text v = []

-- A quote, a backslash, a newline and an accented letter.
abbrev awkward : Text
awkward = b'"' ∷ b'\\' ∷ 10 ∷ 233 ∷ []

string_array-toml_example :
    string_array (toml numbers no_text (arr (texts (awkward ∷ codes "b" ∷ []))) ++ codes "\nrest")
    ≡ some (awkward ∷ codes "b" ∷ [], codes "\nrest")
string_array-toml_example =
    string_array-toml numbers no_text (awkward ∷ codes "b" ∷ []) (codes "\nrest") (omega arith)

-- U+1F600 after a letter
basic_string-toml_wide_example :
    basic_string (toml numbers no_text (str (codes "a" ++ (128_512 ∷ []))) ++ []) ≡ none
basic_string-toml_wide_example =
    basic_string-toml_wide numbers no_text (codes "a") [] [] 128_512 (omega arith) (omega arith)
      (omega arith)

abbrev one_template : Disk
one_template = record {
  parents = codes "/repo" ∷ [];
  is_dir = λ p. true;
  is_file = λ p. text_eq p (codes "/repo/telegraf/templates/opcua.conf.tmpl");
  read_text =
      λ p. ok (codes "command = $command\nlimit = $metric_buffer_limit\nbrokers = $brokers $x");
}

rendered :
    render_telegraf_config numbers no_text one_template p1_config
      (codes "a:1, b:2,")
      connector_dir
      (codes "10s")
    ≡ ok (
        codes
          "command = [\"python3\", \"/opt/connectors/opcua/connector.py\"]\nlimit = 10000\nbrokers = [\"a:1\", \"b:2\"] $x")
unfolding render_telegraf_config opcua_environment
rendered = refl
