-- ===== src/Examples/Asking.antt =====
-- `memory_ask` and the dependency audit at concrete inputs.
use memry_os_lite.Prelude.{
  ℕ, zero, suc, ◌+◌, ◌≤◌, ◌≡◌, refl, Text, codes, true, false, teq, none, some, List, [], ◌∷◌, map,
  length, is_space, if◌then◌else◌,
}
use memry_os_lite.Json.{str, arr, obj, number, nil, item, Fields, field, as_arr}
use memry_os_lite.Curate.Loop.{Answer, value}
use memry_os_lite.Supersede.{SupersededQuote}
use memry_os_lite.Ask.{enough, AskRequest, AskResponse, AskLlm, EvidenceItem, run_ask}
use memry_os_lite.Ask.Rounds.{run_ask-ends}
use memry_os_lite.Ask.Found.{IsEvidence, run_ask-IsEvidence}
use memry_os_lite.Audit.{AuditPrompt, AuditRequest, AuditResponse, Outside, run_audit}
use memry_os_lite.Audit.Verify.{IsSound, run_audit-IsSound}
use memry_os_lite.Examples.Base.{ascii, lower, naturals}

-- Asking: the second query finds the answer.
abbrev evidence : Text → Text → EvidenceItem
evidence id text = record {
  item_id = id;
  layer = codes "history";
  text = text;
  estimated_tokens = 5;
  document_id = none;
  source_refs = [];
}

abbrev library : Text → List EvidenceItem
library query =
    if teq query (codes "monday")
    then evidence (codes "a") (codes "friday launch")
      ∷ evidence (codes "b") (codes "launches on monday")
      ∷ []
    else evidence (codes "a") (codes "friday launch") ∷ []

abbrev asked : AskRequest
asked = record { question = codes "which launch day"; budget = 8; max_rounds = 2 }

abbrev rewriter : AskLlm
rewriter =
    some (λ n question found. value (obj (field (codes "query") (str (codes "monday")) Fields.end)))

abbrev friday : List SupersededQuote
friday = record { quote = codes "friday launch"; current = none } ∷ []

run_ask-ends_example :
    (response : AskResponse) × (run_ask ascii lower library friday rewriter asked ≡ some response)
    × (response.llm_calls ≤ 2)
    × (response.llm_calls ≤ response.retrievals)
    × (response.retrievals ≤ response.llm_calls + 1)
    × (response.retrievals ≤ 2 + 1)
    × (length response.queries ≡ response.retrievals)
run_ask-ends_example = run_ask-ends ascii lower library friday rewriter asked

abbrev answered : AskResponse
answered = record {
  queries = codes "which launch day" ∷ codes "monday" ∷ [];
  items =
      record {
        rank = 1;
        found = record {
          item = evidence (codes "b") (codes "launches on monday");
          query = codes "monday";
          outdated = false;
          current = none;
        };
      }
      ∷ [];
  retrievals = 2;
  llm_calls = 1;
  stopped = enough;
  omitted = 1;
}

answer : run_ask ascii lower library friday rewriter asked ≡ some answered
unfolding run_ask is_space teq
answer = refl

run_ask-IsEvidence_example : IsEvidence 8 answered.items
run_ask-IsEvidence_example = run_ask-IsEvidence ascii lower library friday rewriter asked answer

-- An audit of one message.
abbrev judge_llm : ℕ → AuditPrompt → Answer
judge_llm zero prompt =
    value (obj (field (codes "queries") (arr (item (str (codes " weekend ")) nil)) Fields.end))
judge_llm (suc n) prompt = value (
    obj (
      field (codes "verdicts")
        (obj (
          field (codes "a")
            (obj (
              field (codes "dep") (number 1)
                (field (codes "quote") (str (codes "on friday")) Fields.end)))
            Fields.end))
        Fields.end))

abbrev outside : Outside naturals
outside = record {
  lower = lower;
  equals_one = teq (codes "1.0");
  complete = judge_llm;
  scores = λ corpus query. map (λ tokens. 1) corpus;
  similarities = λ items queries. none;
}

abbrev audited : AuditRequest
audited = record {
  old = codes "deploys on friday";
  new = codes "deploys on monday";
  items = record { id = codes "a"; text = codes "set up on friday"; speaker = none; seq = 1 } ∷ [];
  k = 5;
  expand = true;
}

abbrev audit : AuditResponse
audit = record {
  flagged = record { id = codes "a"; quote = codes "on friday" } ∷ [];
  candidates = codes "a" ∷ [];
  queries = 5;
  expanded = 1;
  dense = false;
  judged = 1;
  dropped_quotes = 0;
  llm_calls = 2;
}

audit_run : run_audit naturals outside audited ≡ some audit
unfolding run_audit is_space as_arr teq
audit_run = refl

run_audit-IsSound_example : IsSound audited audit
run_audit-IsSound_example = run_audit-IsSound naturals outside audited audit_run
