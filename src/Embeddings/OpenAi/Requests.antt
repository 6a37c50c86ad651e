-- ===== src/Embeddings/OpenAi/Requests.antt =====
-- The requests of `chunk_inputs`, lantern_cli/src/embeddings/core/openai_runtime.rs.
use Prim.Native.String.{String}
use lanterndb.Prelude.{
  ℕ, ◌≤◌, ◌≡◌, ◌≢◌, ◌⊎◌, inl, inr, refl, ap, ◌∙◌, Option, List, [], ◌∷◌, ◌++◌, map, arith, length,
  concat, All, length-take, ok,
}
use lanterndb.Embeddings.OpenAi.{
  ModelInfo, model_new, embedding_generation, custom, OpenAiRuntime, OpenAiBody, tokens, texts,
  group_vectors_by_token_count, token_groups, truncated, chunk_inputs, dimensions_input, azure,
  open_ai, token_bodies, OpenAiDeployment,
}
use lanterndb.Embeddings.OpenAi.Groups.{
  IsGroup, concat-group_vectors_by_token_count, group_vectors_by_token_count-IsGroup,
}

module _ (encode : String → List ℕ) where
  token_groups_bounded :
      (info : ModelInfo) (inputs : List String)
      → All (λ v. length v ≤ info.sequence_len) (token_groups encode info inputs)
  unfolding token_groups
  token_groups_bounded info [] = tt
  token_groups_bounded info (input ∷ inputs) = (
    ground (arith, length-take info.sequence_len (encode input)),
    token_groups_bounded info inputs,
  )

  abbrev pub body_tokens : OpenAiBody → List (List ℕ)
  body_tokens (texts inputs name) = []
  body_tokens (tokens group name dimensions) = group

  bodies-concat :
      (name : String) (dimensions : Option ℕ) (groups : List (List (List ℕ)))
      → concat (map body_tokens (map (λ g. tokens g name dimensions) groups)) ≡ concat groups
  bodies-concat name dimensions [] = refl
  bodies-concat name dimensions (g ∷ groups) =
      ap (λ (t : List (List ℕ)). g ++ t) (bodies-concat name dimensions groups)

  bodies-IsGroup :
      (limit : ℕ) (name : String) (dimensions : Option ℕ) (groups : List (List (List ℕ)))
      → All (IsGroup limit) groups
      → All (λ body. IsGroup limit (body_tokens body)) (map (λ g. tokens g name dimensions) groups)
  bodies-IsGroup limit name dimensions [] h = tt
  bodies-IsGroup limit name dimensions (g ∷ groups) h =
      (h.0, bodies-IsGroup limit name dimensions groups h.1)

  token_groups-map :
      (info : ModelInfo) (inputs : List String)
      → token_groups encode info inputs
        ≡ map (λ input. truncated info.sequence_len (encode input)) inputs
  unfolding token_groups
  token_groups-map info [] = refl
  token_groups-map info (input ∷ inputs) =
      ap (λ (t : List (List ℕ)). truncated info.sequence_len (encode input) ∷ t)
        (token_groups-map info inputs)

  deployed_bodies :
      (runtime : OpenAiRuntime) (model_name : String) (inputs : List String) (info : ModelInfo)
      → runtime.deployment_type ≢ custom
      → model_new model_name embedding_generation ≡ ok info
      → chunk_inputs encode runtime model_name inputs ≡ token_bodies encode runtime inputs (ok info)
  unfolding chunk_inputs
  deployed_bodies runtime model_name inputs info deployed known =
      elim (deployment_cases runtime.deployment_type) [
        | inl e ↦ absurd (deployed e)
        | inr (inl e) ↦ rw e (ap (token_bodies encode runtime inputs) known)
        | inr (inr e) ↦ rw e (ap (token_bodies encode runtime inputs) known)
      ]
    where
      deployment_cases : (d : OpenAiDeployment) → (d ≡ custom) ⊎ (d ≡ azure) ⊎ (d ≡ open_ai)
      deployment_cases custom = inl refl
      deployment_cases azure = inr (inl refl)
      deployment_cases open_ai = inr (inr refl)

  -- The requests for a known model of a deployment that is not custom: they hold the tokens of each
  -- input, cut at the length that the model takes, all of them and in order, and no request is
  -- empty or exceeds the model's number of tokens.
  pub chunk_inputs_tokens :
      (runtime : OpenAiRuntime) (model_name : String) (inputs : List String) (info : ModelInfo)
      → runtime.deployment_type ≢ custom
      → model_new model_name embedding_generation ≡ ok info
      → (bodies : List OpenAiBody) × (chunk_inputs encode runtime model_name inputs ≡ ok bodies)
        × (concat (map body_tokens bodies)
            ≡ map (λ input. truncated info.sequence_len (encode input)) inputs)
        × All (λ body. IsGroup info.sequence_len (body_tokens body)) bodies
  unfolding chunk_inputs
  chunk_inputs_tokens runtime model_name inputs info deployed known =
      let group =
        group_vectors_by_token_count (token_groups encode info inputs) info.sequence_len in
      let small =
        group_vectors_by_token_count-IsGroup (token_groups encode info inputs) info.sequence_len
          (token_groups_bounded info inputs) in
      let body : List (List ℕ) → OpenAiBody = λ g.
        tokens g info.name (dimensions_input encode info.var_dimension runtime.fixed_dimensions) in
      (
        map body group,
        deployed_bodies runtime model_name inputs info deployed known,
        bodies-concat info.name
              (dimensions_input encode info.var_dimension runtime.fixed_dimensions) group
            ∙ (concat-group_vectors_by_token_count (token_groups encode info inputs)
                  info.sequence_len
                ∙ token_groups-map info inputs),
        bodies-IsGroup info.sequence_len info.name
            (dimensions_input encode info.var_dimension runtime.fixed_dimensions) group small,
      )
