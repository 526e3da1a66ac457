-- ===== src/Backend/Fixtures.antt =====
-- A day of one installation, for the tests of the vote and of its path.
use dsh_liangxiang.Prelude.{some, [], ◌∷◌}
use dsh_liangxiang.Domain.Vote.{up}
use dsh_liangxiang.Backend.Store.{CaseRow, StatsRow, open_case, Db}
use dsh_liangxiang.Backend.Vote.{V1VoteRequest, Config}

abbrev pub today : CaseRow
today = record {
  id = "case-2026-01-02";
  business_date = "2026-01-02";
  title = "t";
  status = open_case;
  token_per_incense = 50000;
  liangzi_policy_version = "liangzi-v0.2-25-50-70-85-95";
  created_at = 0;
}

abbrev pub plain : Config
plain = record { starter_incense_count = 0 }

abbrev pub empty_stats : StatsRow
empty_stats = record {
  case_id = today.id;
  business_date = today.business_date;
  up_votes = 0;
  down_votes = 0;
  unique_voters = 0;
  version = 0;
  updated_at = 0;
}

-- One installation that claims 160,000 tokens.
abbrev pub opened : Db
opened = record {
  cases = today ∷ [];
  stats = empty_stats ∷ [];
  incense =
      record {
        installation_id = "lx-1";
        business_date = "2026-01-02";
        claimed_effective_tokens = 160000;
        starter_tokens = 0;
        used_incense = 0;
        token_per_incense = 50000;
        version = 1;
        updated_at = 0;
      }
      ∷ [];
  votes = [];
  requests = [];
  snapshots =
      record {
        case_id = today.id;
        sequence = 1;
        business_date = today.business_date;
        up_votes = 0;
        down_votes = 0;
        unique_voters = 0;
        policy_version = today.liangzi_policy_version;
        captured_at = 0;
      }
      ∷ [];
  identities = [];
  grants = [];
}

abbrev pub two_ups : V1VoteRequest
two_ups = record { case_id = today.id; vote_type = up; request_id = "request-1"; count = some 2 }
