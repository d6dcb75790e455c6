-- ===== src/Agent/Tools/Tests.antt =====
-- A turn with two starts of one call id.
use mohuddle.Base.{◌≡◌, refl, true, [], ◌∷◌, some, lookup, arith}
use mohuddle.Agent.Tools.{ToolCall, ToolTracker, other, start, finish, started}
use mohuddle.Agent.Tools.Provenance.{start_all, finish-first}

abbrev reads : ToolCall
reads = record { id = "1"; name = "read"; encoded = true; arguments = other; fingerprint = "r" }

abbrev writes : ToolCall
writes = record { id = "1"; name = "write"; encoded = true; arguments = other; fingerprint = "w" }

abbrev empty_tracker : ToolTracker
empty_tracker = record { starts = [] }

finish-first_example :
    ((finish "1" "success"
        (some "x")
        (start_all (writes ∷ []) (start reads empty_tracker).0)).operation
      ≡ (started reads).operation)
    × ((finish "1" "success"
          (some "x")
          (start_all (writes ∷ []) (start reads empty_tracker).0)).complete
        ≡ (started reads).complete)
unfolding lookup
finish-first_example =
    finish-first reads (writes ∷ []) "success" (some "x") empty_tracker refl (omega arith)
