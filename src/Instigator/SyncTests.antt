-- ===== src/Instigator/SyncTests.antt =====
-- Examples of the status of a configuration.
use rudr.Prelude.{◌≡◌, refl, inl, Any, Result, true, some, List, [], ◌∷◌, ok}
use rudr.BTreeMap
use rudr.Client.{Request, Error}
use rudr.Instigator.{RecordAnnotation, get_record_annotation}
use rudr.Instigator.Setting.{Platform}
use rudr.Instigator.Convergence.{IsDistinct}
use rudr.Instigator.Records.{latest}
use rudr.Instigator.Execution.{record_annotation, new_record}
use rudr.Instigator.Sync.{Synced, sync_started, sync_components, sync_status}
use rudr.Instigator.Pending.{IsChanged, sync_status-pending}
use rudr.Instigator.ExecutionTests.{one, platform, cluster, web, o}

-- The records name no component yet.
abbrev unrecorded : Platform
unrecorded = record platform { parse_records = λ _. ok [] }

abbrev pending : Synced
pending = record { last_components = []; has_diff = true; component_status = [] }

abbrev run_loop : Result Error Synced × List Request
run_loop = sync_components unrecorded cluster "default" o (sync_started []) (one ∷ []) []

looped : run_loop ≡ (ok pending, run_loop.1)
unfolding sync_components BTreeMap.get BTreeMap.remove new_record
    rudr.Instigator.Sync.sync_component rudr.Instigator.Sync.sync_loaded
    rudr.Instigator.Sync.pass_synced rudr.Instigator.check_diff
    rudr.Instigator.Setting.get_component_def rudr.Client.◌>>=◌ rudr.Client.resume rudr.Client.pure
    rudr.Client.unwrap rudr.Client.unwrap_or_else rudr.Client.handle rudr.Client.request
looped = refl

distinct_lem : IsDistinct (one ∷ [])
unfolding IsDistinct latest
distinct_lem = (refl, tt)

records_lem :
    get_record_annotation unrecorded.parse_records
      (BTreeMap.get record_annotation o.metadata.annotations)
    ≡ ok []
unfolding get_record_annotation BTreeMap.get
records_lem = refl

changed_lem : Any (IsChanged unrecorded (λ _. web) []) (one ∷ [])
unfolding rudr.Instigator.check_diff BTreeMap.get
changed_lem = inl (λ _ _. refl)

sync_status-pending_example :
    sync_status unrecorded cluster "default" 1 o [] ≡ (ok (some tt), run_loop.1)
sync_status-pending_example =
    sync_status-pending unrecorded cluster "default" (λ _. web) 1 o [] pending [] run_loop.1
      (λ log name. refl) distinct_lem records_lem changed_lem looped
