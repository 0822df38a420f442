-- ===== src/WebServer/Options.antt =====
-- hw3/webserver-files/server.c: `getargs`.
use operations_systems.Base.{
  not, Option, none, some, List, [], length, get_elem?, ◌==◌, if◌then◌else◌,
}
use operations_systems.Base.Int.{ℤ}
use operations_systems.Shell.Text.{atoi}
use operations_systems.WebServer.Request.{Text, bytes, eq_text}
use operations_systems.WebServer.Server.{OverloadType, block, drop_tail, drop_head, drop_rand}

pub record Options : Type 0 where
  pub port : ℤ
  pub threads : ℤ
  pub queue_size : ℤ
  pub schedalg : OverloadType

abbrev text_or_empty : Option Text → Text
text_or_empty none = []
text_or_empty (some t) = t

-- The policy; of another name, what the variable holds, which `main` leaves uninitialised.
pub overload_type : (uninitialised : OverloadType) → Text → OverloadType
overload_type uninitialised ot =
    if eq_text ot (bytes "block")
    then block
    else if eq_text ot (bytes "dt")
    then drop_tail
    else if eq_text ot (bytes "dh")
    then drop_head
    else if eq_text ot (bytes "random")
    then drop_rand
    else uninitialised

-- `none` where the program exits with a usage line. `argv` holds the program's name first.
pub get_args : (uninitialised : OverloadType) (argv : List Text) → Option Options
get_args uninitialised argv =
    if not (length argv == 5)
    then none
    else some (record {
      port = atoi (text_or_empty (get_elem? argv 1));
      threads = atoi (text_or_empty (get_elem? argv 2));
      queue_size = atoi (text_or_empty (get_elem? argv 3));
      schedalg = overload_type uninitialised (text_or_empty (get_elem? argv 4));
    })
