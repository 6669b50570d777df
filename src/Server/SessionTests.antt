-- ===== src/Server/SessionTests.antt =====
-- The sessions of the server on a machine in memory.
use eacopy.Base.{◌≡◌, refl, true, false, [], ◌∷◌, none, some, codes, arith}
use eacopy.Base.Bytes.{le}
use eacopy.Os.Memory.{Machine, memory}
use eacopy.Server.Sessions.{Access, EnvironmentCommand, Shares, environment, leave_session}
use eacopy.Server.Balance.{leave_session-environment}

abbrev one_share : Shares memory
one_share = record {
  share_path = λ name. some (codes "c:\\share");
  create_guid = λ m. (some 7, m);
  guid_text = λ guid. codes "{0}";
}

abbrev fresh : Access Machine
fresh = record {
  sessions = (9, 1) ∷ [];
  active_session = none;
  secret_guid = 0;
  server_path = [];
  is_server_path_external = false;
  is_valid_environment = false;
  os = record { nodes = []; inbox = le 16 7; outbox = []; written = []; source = [] };
}

abbrev joining : EnvironmentCommand
joining = record { net_directory = codes "share\\x"; cmd_secret_guid = 9 }

leave_session-environment_example :
    (leave_session memory one_share (environment memory one_share true joining fresh).1).sessions
    ≡ (9, 1) ∷ []
leave_session-environment_example =
    leave_session-environment memory one_share true joining fresh refl
      (omega arith, omega arith, tt)
