-- ===== src/Bridge/Requests.antt =====
-- stage_bridge.py: the requests that the bridge lets pass.
use laneq.Common.{[], ◌∷◌, Option, none, some, Result, ok, err, queue_error, if◌then◌else◌}
use laneq.Text.{Text, codes, text_eq}
use laneq.Contract.{Value, Fields, end, field, text, dict, object_fields, get_field, bounded_text}

-- The requests that `request` lets pass.
pub data Request : Type 0 where
  claim_request : Request
  inspect_request : Text → Text → Request
  renew_request : Text → Text → Request
  complete_request : Text → Text → Value → Request

abbrev operation_in : Fields → Option Value
operation_in end = none
operation_in (field name v fs) =
    if text_eq name (codes "operation") then some v else operation_in fs

-- The task and the token of a request.
unfoldable pub task_and_token : Fields → Result (Text × Text)
unfolding get_field bounded_text
task_and_token fields = elim (get_field (codes "task_id") fields) [
  | err e ↦ err e
  | ok t ↦ elim (bounded_text t 256) [
    | err e ↦ err e
    | ok task_id ↦ elim (get_field (codes "claim_token") fields) [
      | err e ↦ err e
      | ok c ↦ elim (bounded_text c 256) [ err e ↦ err e | ok token ↦ ok (task_id, token) ]
    ]
  ]
]

unfoldable pub fenced_request : Value → (Text → Text → Request) → Result Request
unfolding object_fields task_and_token
fenced_request value make =
    elim (object_fields value (codes "operation" ∷ codes "task_id" ∷ codes "claim_token" ∷ [])) [
      | err e ↦ err e
      | ok fields ↦ elim (task_and_token fields) [
        | err e ↦ err e
        | ok pair ↦ ok (make pair.0 pair.1)
      ]
    ]

unfoldable pub completion_request : Value → Result Request
unfolding object_fields task_and_token get_field
completion_request value =
    elim (object_fields value
      (codes "operation" ∷ codes "task_id" ∷ codes "claim_token" ∷ codes "manifest" ∷ [])) [
        | err e ↦ err e
        | ok fields ↦ elim (task_and_token fields) [
          | err e ↦ err e
          | ok pair ↦ elim (get_field (codes "manifest") fields) [
            | err e ↦ err e
            | ok manifest ↦ ok (complete_request pair.0 pair.1 manifest)
          ]
        ]
      ]

unfoldable pub claim_of_fields : Value → Result Request
unfolding object_fields
claim_of_fields value = elim (object_fields value (codes "operation" ∷ [])) [
  | err e ↦ err e
  | ok fields ↦ ok claim_request
]

unfoldable pub request_for : Text → Value → Result Request
unfolding fenced_request completion_request claim_of_fields
request_for operation value =
    if text_eq operation (codes "claim")
    then claim_of_fields value
    else if text_eq operation (codes "inspect")
    then fenced_request value inspect_request
    else if text_eq operation (codes "renew")
    then fenced_request value renew_request
    else if text_eq operation (codes "complete")
    then completion_request value
    else err queue_error

unfoldable pub named_request : Option Value → Value → Result Request
unfolding request_for
named_request (some (text operation)) value = request_for operation value
named_request _ value = err queue_error

unfoldable pub request : Value → Result Request
unfolding named_request
request (dict fields) = named_request (operation_in fields) (dict fields)
request _ = err queue_error
