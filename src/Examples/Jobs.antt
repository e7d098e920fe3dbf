-- ===== src/Examples/Jobs.antt =====
-- The configuration of jobs at a concrete input.
use proxyfleet.Base.{◌*◌, true, some, [], ◌∷◌, pos, codes}
use proxyfleet.Monitor.Backoff.{minute}
use proxyfleet.Config.Jobs.{Job, Setup, Texts}

-- Texts in normal form, and durations of two minutes.
abbrev plain_texts : Texts
plain_texts = record {
  lower_trimmed = λ s. s;
  trimmed = λ s. s;
  is_name = λ _. true;
  is_target = λ _. true;
  parse_duration = λ _. some (pos (2 * minute));
}

abbrev setup : Setup
setup = record {
  mode = codes "pool";
  profiles = codes "eu" ∷ [];
  endpoints =
      record {
        name = codes "ep";
        enabled = true;
        profile = codes "eu";
        username = codes "crawler";
        password = codes "secret";
      }
      ∷ [];
}

abbrev written_job : Job
written_job = record {
  name = codes "accounts";
  mode = codes "pinned";
  selection = [];
  failure_policy = codes "failover";
  profile = codes "eu";
  ingress = [];
  password = [];
  endpoint = codes "ep";
  target_url = [];
  size = pos 0;
  concurrency = pos 0;
  timeout = codes "2m";
  refresh_interval = [];
  session_idle_timeout = codes "2m";
  session_ttl = codes "2m";
  max_sessions = pos 12;
  max_accounts_per_node = pos 2;
  probe_batch_size = pos 0;
  probe_concurrency = pos 0;
  max_response_bytes = pos 0;
  expected_status = pos 0;
  body_contains = [];
}

abbrev accepted_job : Job
accepted_job = record written_job {
  selection = codes "manual";
  concurrency = pos 8;
  refresh_interval = codes "10m";
  probe_batch_size = pos 32;
  probe_concurrency = pos 4;
  max_response_bytes = pos 2097152;
  expected_status = pos 200;
}
