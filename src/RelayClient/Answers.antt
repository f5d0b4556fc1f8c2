-- ===== src/RelayClient/Answers.antt =====
-- The client of a relay server and the server's handlers of profiles.
use cashweb_backends.Common.Exec.{ok}
use cashweb_backends.Http.{Incoming, Response}
use cashweb_backends.AuthWrapper.{AuthWrapper}
use cashweb_backends.RelayServer.Rocks.{Rocks}
use cashweb_backends.RelayServer.Profiles as Profiles

-- The response of a server as it comes in at the client.
abbrev pub carried : {BodyError : Type 0} → Response → Incoming BodyError
carried response = record {
  status = response.status;
  headers = response.headers;
  body = ok response.body;
}
