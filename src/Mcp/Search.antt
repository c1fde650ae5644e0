-- ===== src/Mcp/Search.antt =====
-- `search` of cmd/llama-stack-search-mcp/main.go. What SearXNG answers is an argument.
use Prim.Native.String.{◌++◌}
use llama_stack.Base.{
  ℕ, ◌||◌, List, String, Result, ok, err, message, wrapped, if◌then◌else◌, str_eq, length, take,
  ltb, ◌>>=◌, ◌>>◌, fail_if,
}
use llama_stack.Base.Int.{ℤ, pos, ltb_ℤ, leb_ℤ, pos_part}
use llama_stack.Base.Text.{trim_space}

pub record SearchInput : Type 0 where
  pub query : String
  pub max_results : ℤ

-- An answer of SearXNG: status, the line of the status, the first bytes of the body, and what the
-- decoder finds in the body.
pub record Answer (R : Type 0) : Type 0 where
  pub status : ℤ
  pub line : String
  pub body : String
  pub decoded : Result (List R)

abbrev pub effective_limit : ℤ → ℤ
effective_limit (pos ℕ.zero) = pos 5
effective_limit n = n

abbrev pub cut : {R : Type 0} → ℕ → List R → List R
cut n rs = if ltb n (length rs) then take n rs else rs

-- The answer, read.
unfoldable pub read_answer : {R : Type 0} → ℕ → Answer R → Result (List R)
unfolding trim_space
read_answer limit answer =
    if ltb_ℤ answer.status (pos 200) || leb_ℤ (pos 300) answer.status
    then err (message ("SearXNG returned " ++ answer.line ++ ": " ++ trim_space answer.body))
    else elim answer.decoded [
      | err e ↦ err (wrapped "decode SearXNG response" e)
      | ok results ↦ ok (cut limit results)
    ]

-- `search`; `ask` sends the trimmed query.
unfoldable pub search : {R : Type 0} → (String → Result (Answer R)) → SearchInput → Result (List R)
unfolding read_answer trim_space
search ask input = do
  fail_if (str_eq (trim_space input.query) "") (message "query must not be empty")
  fail_if
      (ltb_ℤ (effective_limit input.max_results) (pos 1)
        || ltb_ℤ (pos 10) (effective_limit input.max_results))
      (message "max_results must be between 1 and 10")
  answer ← ask (trim_space input.query)
  read_answer (pos_part (effective_limit input.max_results)) answer

-- The settings of `run`: the address of SearXNG is required and must be one.
unfoldable pub base_url : (String → Result (Unit {0})) → String → Result String
unfolding trim_space
base_url parse_request_uri setting = do
  fail_if (str_eq (trim_space setting) "") (message "SEARXNG_URL is required")
  elim (parse_request_uri (trim_space setting)) [
    | err e ↦ err (wrapped "invalid SEARXNG_URL" e)
    | ok _ ↦ ok (trim_space setting)
  ]
