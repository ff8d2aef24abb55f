-- ===== src/Artifacts/Tests.antt =====
-- A purge of two artifacts, of which the content of the second cannot be deleted.
use enterprise_security_reco.Prelude.{
  String, ◌≡◌, refl, false, none, some, List, [], ◌∷◌, pos, ◌==◌, if◌then◌else◌,
}
use enterprise_security_reco.Errors.{raised, wrapped}
use enterprise_security_reco.Domain.{Artifact}
use enterprise_security_reco.Capability.{ok}
use enterprise_security_reco.Artifacts.{
  RetentionStore, Deleter, purge_one, purge_items, purge_expired,
}
use enterprise_security_reco.Artifacts.Purge.{PurgedPart, purge_items-PurgedPart}

abbrev artifact : String → Artifact
artifact id = record {
  id = id;
  task_id = "t";
  workflow_run_id = "r";
  step_run_id = "s";
  tool_run_id = "u";
  type = "log";
  content_type = "text/plain";
  size = 1;
  sha256 = "";
  storage_location = id;
  redaction_state = "redacted";
  sensitive = false;
}

abbrev expired : List Artifact
expired = artifact "a" ∷ artifact "b" ∷ []

abbrev shelf : RetentionStore (List String)
shelf = record {
  expired_artifacts = λ limit log. (ok expired, log);
  delete_artifact = λ id log. (none, "metadata" ∷ log);
}

abbrev remove_content : Deleter (List String)
remove_content =
    λ a log. if a.id == "b" then (some (raised "busy"), log) else (none, "content" ∷ log)

one_removed :
    purge_expired (some shelf) (some remove_content) (pos 10) []
    ≡ ((1, some (wrapped "delete artifact content" (raised "busy"))), "metadata" ∷ "content" ∷ [])
unfolding purge_expired purge_items purge_one
one_removed = refl

purge_items-PurgedPart_example :
    PurgedPart shelf remove_content [] expired 0 (purge_items shelf remove_content expired 0 [])
purge_items-PurgedPart_example = purge_items-PurgedPart shelf remove_content expired 0 []
