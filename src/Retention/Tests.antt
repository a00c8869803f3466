-- ===== src/Retention/Tests.antt =====
-- A run of the retention worker on three records.
use kenkui_server.Prelude.{◌≡◌, refl, true, false, [], ◌∷◌}
use kenkui_server.Retention.{RetentionKind, Store, run, sorted, insert, sweep, expired, delete}
use kenkui_server.Retention.Sweep.{IsSwept, run-IsSwept}

abbrev stored : Store
stored = record {
  records =
      record {
        identifier = 3;
        kind = RetentionKind.temporary;
        terminal_at = 10;
        all_dependent_jobs_terminal = true;
      }
      ∷ record {
        identifier = 1;
        kind = RetentionKind.source;
        terminal_at = 10;
        all_dependent_jobs_terminal = false;
      }
      ∷ record {
        identifier = 2;
        kind = RetentionKind.source;
        terminal_at = 4;
        all_dependent_jobs_terminal = true;
      }
      ∷ [];
  deleted = [];
}

-- The identifiers come in order, and a source with an open job stays.
stored_run : (run 40 stored).0 ≡ 2 ∷ 3 ∷ []
unfolding run sorted insert sweep expired delete
stored_run = refl

run-IsSwept_example : IsSwept 40 stored (run 40 stored).1
run-IsSwept_example = run-IsSwept 40 stored
