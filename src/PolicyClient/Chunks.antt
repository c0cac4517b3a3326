-- ===== src/PolicyClient/Chunks.antt =====
-- AddPoliciesV0 and DeletePoliciesV0 (external_policy_client.go) send their policies in chunks.
use cf_networking_release.Prelude.{
  ℕ, String, ℤ, ◌≡◌, refl, ◌∙◌, ap, Option, none, some, List, [], ◌∷◌, ◌++◌, concat, All, ◌⊎◌, inl,
  inr, Result, ok, err,
}
use mathlib.Core.List.{append-nil, append_assoc}
use cf_networking_release.CloudController.{ClientError}
use cf_networking_release.Chunk.{chunk, get_chunk_size}
use cf_networking_release.Chunk.Laws.{Fits, concat-chunk}
use cf_networking_release.PolicyClient.{
  Request, parse_http_error, post_request, unless_refused, post_chunks, add_policies_v0,
  delete_policies_v0,
}

module _ {Policy World : Type 0} (status_text : ℕ → String)
    (call : Request Policy → World → (List Policy ⊎ ClientError) × World) where
  -- The requests that were made, with the error of the last if it failed.
  pub data Posted (route token : String)
      : List (List Policy) → World → Option ClientError → World → Type 0 where
    all_posted : {w : World} → Posted route token [] w none w
    accepted :
        {c : List Policy} {sent : List (List Policy)} {w between last : World}
        {answer : List Policy} {e : Option ClientError}
        → call (post_request status_text call route c token) w ≡ (inl answer, between)
        → Posted route token sent between e last
        → Posted route token (c ∷ sent) w e last
    refused :
        {c : List Policy} {w last : World} {e : ClientError}
        → call (post_request status_text call route c token) w ≡ (inr e, last)
        → Posted route token (c ∷ []) w (some e) last

  abbrev pub result_of : Option ClientError → Result (Unit {0})
  result_of none = ok tt
  result_of (some e) = err (parse_http_error status_text call e)

  -- The call's result and its requests: their chunks are the first ones of the list, in order, and
  -- all of them unless the last request failed.
  abbrev pub SendsChunks :
      String
      → String
      → (List Policy → Type 0)
      → List Policy
      → World
      → Result (Unit {0}) × World
      → Type 0
  SendsChunks route token Fitting policies w result =
      (sent : List (List Policy)) × (left : List Policy) × (e : Option ClientError) × (last : World)
      × Posted route token sent w e last
      × (result ≡ (result_of e, last))
      × (concat sent ++ left ≡ policies)
      × All Fitting sent
      × ((left ≡ []) ⊎ ((f : ClientError) × (e ≡ some f)))

  post_chunks-SendsChunks :
      (route token : String) (Fitting : List Policy → Type 0) (chunks : List (List Policy))
      (w : World)
      → All Fitting chunks
      → SendsChunks route token Fitting
          (concat chunks)
          w
          (post_chunks status_text call route token chunks w)
  unfolding post_chunks
  post_chunks-SendsChunks route token Fitting [] w fit =
      ([], [], none, w, all_posted, refl, refl, tt, inl refl)
  post_chunks-SendsChunks route token Fitting (c ∷ chunks) w (fits, fit) =
      answered (call (post_request status_text call route c token) w) refl
        (λ between. post_chunks-SendsChunks route token Fitting chunks between fit)
    where
      answered :
          (answer : (List Policy ⊎ ClientError) × World)
          → call (post_request status_text call route c token) w ≡ answer
          → ((between : World)
              → SendsChunks route token Fitting
                  (concat chunks)
                  between
                  (post_chunks status_text call route token chunks between))
          → SendsChunks route token Fitting (concat (c ∷ chunks)) w (
              unless_refused status_text call
                (post_chunks status_text call route token chunks)
                answer)
      answered (inr e, last) called rest = (
        c ∷ [],
        concat chunks,
        some e,
        last,
        refused called,
        refl,
        ap (λ d. d ++ concat chunks) (append-nil c),
        (fits, tt),
        inr (e, refl),
      )
      answered (inl policies, between) called rest =
          let (sent, left, e, last, posted, result, all, good, ended) = rest between in
          (
            c ∷ sent,
            left,
            e,
            last,
            accepted called posted,
            result,
            append_assoc c (concat sent) left ∙ ap (λ d. c ++ d) all,
            (fits, good),
            ended,
          )

  -- Whatever the policy server answers: AddPoliciesV0 makes requests, one after another, with chunks
  -- that hold the first policies of the list, in order and each once, and none is empty or longer
  -- than the chunk size; it sends them all and succeeds, or stops at the first request that fails,
  -- with that request's error. DeletePoliciesV0 does the same on its own route.
  pub add_and_delete_policies_v0-SendsChunks :
      (chunk_size : ℤ) (token : String) (policies : List Policy) (w : World)
      → SendsChunks "/networking/v0/external/policies" token
          (Fits (get_chunk_size chunk_size))
          policies
          w
          (add_policies_v0 status_text call chunk_size token policies w)
        × SendsChunks "/networking/v0/external/policies/delete" token
            (Fits (get_chunk_size chunk_size))
            policies
            w
            (delete_policies_v0 status_text call chunk_size token policies w)
  unfolding add_policies_v0 delete_policies_v0
  add_and_delete_policies_v0-SendsChunks chunk_size token policies w =
      let (whole, fits) = concat-chunk chunk_size policies in
      (
        sends "/networking/v0/external/policies" whole fits,
        sends "/networking/v0/external/policies/delete" whole fits,
      )
    where
      sends :
          (route : String)
          → concat (chunk chunk_size policies) ≡ policies
          → All (Fits (get_chunk_size chunk_size)) (chunk chunk_size policies)
          → SendsChunks route token
              (Fits (get_chunk_size chunk_size))
              policies
              w
              (post_chunks status_text call route token (chunk chunk_size policies) w)
      sends route whole fits =
          let (sent, left, e, last, posted, result, all, good, ended) =
            post_chunks-SendsChunks route token (Fits (get_chunk_size chunk_size))
              (chunk chunk_size policies) w fits in
          (sent, left, e, last, posted, result, all ∙ whole, good, ended)
