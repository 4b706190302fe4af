-- ===== src/ServiceGrpc.antt =====
-- src/service/service_grpc.cpp: the calls that clients make over gRPC, each of which asks the model
-- and turns its status into one of gRPC. The log that a failure is written to is left out.
use content_based.Base.{◌≡◌, refl, ap, ◌∙◌, none, some, List, [], ℕ, ℤ}
use content_based.Status.{Status}
use content_based.Storage.{Bytes}
use content_based.Floats.{Floats}
use content_based.Map.{Map, find, int_key, nat_key}
use content_based.Protocol.{ItemTag}
use content_based.Marshaler.{MarshalerOptions}
use content_based.UserInterests.Queries.{find-query_user_interests}
use content_based.ContentBased.{ContentBased, Options}
use content_based.ContentBased.Predictions
use content_based.ContentBased.Predictions.{
  Answer, answered, reads_out_of_range, keeps_drawing, is_undefined, Sort, marshal_user_interests,
  append_tags, narrowed,
}
use content_based.ContentBased.Mixing.{power_in, power_in-tags_of}

-- The codes of `grpc::Status` that the service gives.
pub data GrpcCode : Type 0 where
  grpc_ok grpc_not_found grpc_internal grpc_unknown : GrpcCode

unfoldable pub failed_status_glue : Status → GrpcCode
failed_status_glue Status.not_found = GrpcCode.grpc_not_found
failed_status_glue Status.corruption = GrpcCode.grpc_internal
failed_status_glue _ = GrpcCode.grpc_unknown

-- The end of each method: `if (status.ok()) return grpc::Status::OK;`.
abbrev pub code_of_status : Status → GrpcCode
code_of_status Status.ok = GrpcCode.grpc_ok
code_of_status e = failed_status_glue e

abbrev pub respond {ℓ} : {A : Type ℓ} → Status × A → GrpcCode × A
respond (e, response) = (code_of_status e, response)

-- What `marshalUserInterests` answers, or where the model does not come to an end.
pub data GrpcAnswer : Type 0 where
  responds : GrpcCode → List ℤ → GrpcAnswer
  reads_through_end : GrpcAnswer
  draws_on : GrpcAnswer
  undefined : GrpcAnswer

abbrev pub respond_to : Answer → GrpcAnswer
respond_to (answered e ids) = responds (code_of_status e) ids
respond_to reads_out_of_range = reads_through_end
respond_to keeps_drawing = draws_on
respond_to is_undefined = undefined

unfoldable pub query_category :
    {U I C W D : Type 0} → Map ℤ Bytes → ContentBased U I C W D → GrpcCode × Map ℤ Bytes
query_category response s = respond (Predictions.query_category response s)

module _ (fl : Floats) {U I C W : Type 0} (opts : Options fl.Float) where
  open fl use {Double, Float}

  unfoldable pub marshal :
      Sort fl → MarshalerOptions Float → ℕ → ℕ → List ℕ → ContentBased U I C W Double → GrpcAnswer
  marshal sort mo user_id request_num draws s =
      respond_to (marshal_user_interests fl opts sort mo user_id request_num draws s)

  unfoldable pub predict : ℕ → ContentBased U I C W Double → GrpcCode × List (ItemTag Float)
  predict user_id s = respond (Predictions.predict_distribution fl opts user_id s)

  unfoldable pub query_news_trends :
      List (ItemTag Float) → ContentBased U I C W Double → GrpcCode × List (ItemTag Float)
  query_news_trends response s = respond (Predictions.query_news_trends fl opts response s)

  unfoldable pub query_current_trends :
      List (ItemTag Float) → ContentBased U I C W Double → GrpcCode × List (ItemTag Float)
  query_current_trends response s = respond (Predictions.query_current_trends fl opts response s)

  unfoldable pub query_interests :
      ℕ → List (ItemTag Float) → ContentBased U I C W Double → GrpcCode × List (ItemTag Float)
  query_interests user_id response s =
      respond (Predictions.query_interests fl opts user_id response s)

  unfoldable pub query_current_interests :
      ℕ → List (ItemTag Float) → ContentBased U I C W Double → GrpcCode × List (ItemTag Float)
  query_current_interests user_id response s =
      respond (Predictions.query_current_interests fl opts user_id response s)

  -- Of a user whose long-term interests are known, the response gives the weight of each category;
  -- of another user there is none.
  pub query_interests-responds :
      (u : ℕ) (s : ContentBased U I C W Double) (c : ℤ)
      → ((find u s.interests.target.user_dist ≡ none)
          → query_interests u [] s ≡ (GrpcCode.grpc_not_found, []))
        × ((m : Map ℤ Double)
            → find u s.interests.target.user_dist ≡ some m
            → ((query_interests u [] s).0 ≡ GrpcCode.grpc_ok)
              × (power_in fl c (query_interests u [] s).1 ≡ narrowed fl (find c m)))
  unfolding query_interests failed_status_glue Predictions.query_interests append_tags
  query_interests-responds u s c =
      let queried = find-query_user_interests fl opts.interests u s.interests.target c in
      (
        (λ e. rw (queried.0 e) refl),
        (λ m e.
            rw ((queried.1 m e).0)
              (refl, power_in-tags_of fl _ c ∙ ap (narrowed fl) (queried.1 m e).1)),
      )
