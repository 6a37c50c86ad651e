-- ===== src/Embeddings/OpenAi.antt =====
-- The OpenAI runtime, lantern_cli/src/embeddings/core/openai_runtime.rs: its models, deployments and
-- headers, and how the inputs become requests. The tokenizer and the test of the Azure expression
-- are parameters; a request is the fields of its JSON.
pub mod Groups
pub mod Requests
use Prim.Native.String.{String}
use text.Mathlib.Text.{◌==◌}
use lanterndb.Prelude.{
  ℕ, ◌+◌, Bool, true, false, Option, none, some, List, [], ◌∷◌, ◌++◌, map, leb, ltb, if◌then◌else◌,
  length, take, Result, ok, err,
}

pub data EmbeddingJobType : Type 0 where
  embedding_generation completion : EmbeddingJobType

pub data OpenAiDeployment : Type 0 where
  azure open_ai custom : OpenAiDeployment

pub data OpenAiError : Type 0 where
  unsupported_model : String → OpenAiError
  token_required azure_token_required : OpenAiError

-- The tokenizer is `cl100k_base` for every model.
pub record ModelInfo : Type 0 where
  pub name : String
  pub sequence_len : ℕ
  pub dimensions : ℕ
  pub var_dimension : Bool

-- None of the names has a slash, so that each is its own last part.
unfoldable pub model_new : String → EmbeddingJobType → Result OpenAiError ModelInfo
model_new model_name embedding_generation =
    if model_name == "text-embedding-ada-002"
    then ok (record {
      name = model_name;
      sequence_len = 8190;
      dimensions = 1536;
      var_dimension = false;
    })
    else if model_name == "text-embedding-3-small"
    then ok
        (record { name = model_name; sequence_len = 8190; dimensions = 1536; var_dimension = true })
    else if model_name == "text-embedding-3-large"
    then ok
        (record { name = model_name; sequence_len = 8190; dimensions = 3072; var_dimension = true })
    else err (unsupported_model model_name)
model_new model_name completion =
    let info : ModelInfo = record {
      name = model_name;
      sequence_len = 128000;
      dimensions = 0;
      var_dimension = false;
    } in
    if model_name == "gpt-4"
    then ok info
    else if model_name == "gpt-4o"
    then ok info
    else if model_name == "gpt-4o-mini"
    then ok info
    else if model_name == "gpt-4-turbo"
    then ok info
    else err (unsupported_model model_name)

pub record OpenAiRuntimeParams : Type 0 where
  pub base_url : Option String
  pub api_token : Option String
  pub azure_entra_token : Option String
  pub system_prompt : Option String
  pub requested_dimensions : Option ℕ

-- The header that carries the token: `Authorization: Bearer <token>` or `api-key: <token>`.
pub data AuthHeader : Type 0 where
  bearer api_key : String → AuthHeader

pub record OpenAiRuntime : Type 0 where
  pub url : String
  pub auth : AuthHeader
  pub prompt : String
  pub fixed_dimensions : Option ℕ
  pub deployment_type : OpenAiDeployment

module _ (is_azure : String → Bool) where
  pub get_base_url : Option String → OpenAiDeployment × String
  get_base_url none = (open_ai, "https://api.openai.com")
  get_base_url (some base_url) = if is_azure base_url then (azure, base_url) else (custom, base_url)

  pub auth_header : OpenAiDeployment → Option String → Option String → Result OpenAiError AuthHeader
  auth_header azure (some key) entra = ok (api_key key)
  auth_header azure none (some token) = ok (bearer token)
  auth_header azure none none = err azure_token_required
  auth_header _ (some token) entra = ok (bearer token)
  auth_header _ none entra = err token_required

  abbrev prompt_text : Option String → String
  prompt_text none = ""
  prompt_text (some text) = text

  abbrev with_auth :
      OpenAiRuntimeParams
      → OpenAiDeployment × String
      → Result OpenAiError AuthHeader
      → Result OpenAiError OpenAiRuntime
  with_auth params target (err e) = err e
  with_auth params target (ok auth) = ok (record {
    url = target.1;
    auth = auth;
    prompt = prompt_text params.system_prompt;
    fixed_dimensions = params.requested_dimensions;
    deployment_type = target.0;
  })

  -- `OpenAiRuntime::new`, from the parsed parameters.
  unfoldable pub runtime_new : OpenAiRuntimeParams → Result OpenAiError OpenAiRuntime
  unfolding get_base_url auth_header
  runtime_new params =
      let target = get_base_url params.base_url in
      with_auth params target (auth_header target.0 params.api_token params.azure_entra_token)

-- The variables of `group_vectors_by_token_count`.
pub record Grouping : Type 0 where
  pub result : List (List (List ℕ))
  pub current_group : List (List ℕ)
  pub current_group_token_count : ℕ

pub group_step : ℕ → Grouping → List ℕ → Grouping
group_step max_token_count g inner_vec =
    if leb (g.current_group_token_count + length inner_vec) max_token_count
    then record g {
      current_group = g.current_group ++ inner_vec ∷ [];
      current_group_token_count = g.current_group_token_count + length inner_vec;
    }
    else record {
      result = g.result ++ g.current_group ∷ [];
      current_group = inner_vec ∷ [];
      current_group_token_count = length inner_vec;
    }

pub group_loop : ℕ → Grouping → List (List ℕ) → Grouping
unfolding group_step
group_loop max_token_count g [] = g
group_loop max_token_count g (inner_vec ∷ input) =
    group_loop max_token_count (group_step max_token_count g inner_vec) input

abbrev pub last_group : List (List (List ℕ)) → List (List ℕ) → List (List (List ℕ))
last_group result [] = result
last_group result (v ∷ vs) = result ++ (v ∷ vs) ∷ []

unfoldable pub group_vectors_by_token_count : List (List ℕ) → ℕ → List (List (List ℕ))
unfolding group_loop
group_vectors_by_token_count input max_token_count =
    let g =
      group_loop max_token_count
        (record { result = []; current_group = []; current_group_token_count = 0 }) input in
    last_group g.result g.current_group

-- The body of a request: texts for a custom deployment, groups of tokens otherwise.
pub data OpenAiBody : Type 0 where
  texts : List String → String → OpenAiBody
  tokens : List (List ℕ) → String → Option ℕ → OpenAiBody

abbrev pub truncated : ℕ → List ℕ → List ℕ
truncated sequence_len tokens' =
    if ltb sequence_len (length tokens') then take sequence_len tokens' else tokens'

module _ (encode : String → List ℕ) where
  pub token_groups : ModelInfo → List String → List (List ℕ)
  token_groups info [] = []
  token_groups info (input ∷ inputs) =
      truncated info.sequence_len (encode input) ∷ token_groups info inputs

  abbrev pub dimensions_input : Bool → Option ℕ → Option ℕ
  dimensions_input true dimensions = dimensions
  dimensions_input false dimensions = none

  abbrev pub token_bodies :
      OpenAiRuntime
      → List String
      → Result OpenAiError ModelInfo
      → Result OpenAiError (List OpenAiBody)
  token_bodies runtime inputs (err e) = err e
  token_bodies runtime inputs (ok info) = ok (
      map
        (λ group.
          tokens group info.name (dimensions_input info.var_dimension runtime.fixed_dimensions))
        (group_vectors_by_token_count (token_groups info inputs) info.sequence_len))

  abbrev bodies_of :
      OpenAiDeployment → OpenAiRuntime → String → List String → Result OpenAiError (List OpenAiBody)
  bodies_of custom runtime model_name inputs = ok (texts inputs model_name ∷ [])
  bodies_of _ runtime model_name inputs =
      token_bodies runtime inputs (model_new model_name embedding_generation)

  -- The map of the models holds those that `ModelInfo::new` knows for embedding generation.
  unfoldable pub chunk_inputs :
      OpenAiRuntime → String → List String → Result OpenAiError (List OpenAiBody)
  unfolding group_vectors_by_token_count token_groups model_new
  chunk_inputs runtime model_name inputs =
      bodies_of runtime.deployment_type runtime model_name inputs
