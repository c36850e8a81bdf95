-- ===== src/Clock/Tests.antt =====
-- appendTime of server/mqtt/server.go on the time that TimeFormat is written with.
use kratos_transport_rpc.Prelude.{◌≡◌, refl, []}
use kratos_transport_rpc.Prelude.Text.{codes}
use kratos_transport_rpc.Clock.{Time, at, digit, append_time}

abbrev reference : Time
reference = record {
  year = 2006;
  month = 1;
  day = 2;
  weekday = 1;
  hour = 15;
  minute = 4;
  second = 5;
}

append_reference : append_time [] reference ≡ codes "Mon, 02 Jan 2006 15:04:05 GMT"
unfolding append_time at digit
append_reference = refl
