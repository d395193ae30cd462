-- ===== src/Tests/Process.antt =====
-- How the process starts and ends.
use headtotails.Prelude.{◌≡◌, refl, false, none, [], ◌∷◌}
use headtotails.Text.{codes}
use headtotails.Config.{Config, config, load, validate}
use headtotails.Text.{◌==◌}
use headtotails.Text.Space.{trim_space}
use headtotails.Main.{
  should_print_version, Surroundings, HttpServer, listening, server_of, main, not_loaded,
}
use headtotails.Main.Laws.{Start, main-Start}
use headtotails.Headscale.Client.{connection, new_grpc_client}
use headtotails.Main.Shutdown.{
  signalled, shut_down, Run, start, later, stop, finish, ended, Explains, Run-Explains,
}
use headtotails.Tests.Settings

-- A signal and a clean shutdown.
abbrev clean_exit : Run (shut_down ∷ signalled ∷ []) (record { phase = ended 0; serves = false })
clean_exit = later (later start stop) finish

Run-Explains_example : Explains (shut_down ∷ signalled ∷ []) (ended 0)
Run-Explains_example = Run-Explains clean_exit

abbrev usable : Config
usable = record Settings.settings { wif_enabled = false }

abbrev surroundings : Surroundings Unit Unit
surroundings = record {
  args = codes "headtotails" ∷ [];
  version = codes "dev";
  processed = config usable;
  dial = λ addr. connection tt;
  load_key_pair = λ cert key. not_loaded (codes "no such file");
  other = λ c. c;
}

main-Start_example : Start surroundings (main surroundings)
main-Start_example = main-Start surroundings

abbrev server : HttpServer Unit Unit
server = server_of surroundings usable tt (record { api_key = codes "k" }) none

started : main surroundings ≡ listening server
unfolding main new_grpc_client ◌==◌ load validate should_print_version trim_space
started = refl
