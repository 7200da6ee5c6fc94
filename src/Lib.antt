-- ===== src/Lib.antt =====
-- MemoryOS Lite: a memory service for agents. A host sends messages and failures and gets
-- memories that are grounded in verbatim quotes; it sends items and gets a ranking within a
-- token budget; it sends a changed statement and gets the messages that relied on the old one.
--
-- Parts, and how they interact:
--
-- * src/memoryos_lite/curator/grounding.py is Grounding.antt: `repair_quote` and what it calls.
--   The checker of replies below accepts a quote only through it.
-- * src/memoryos_lite/curator/curate.py is Curate.antt: the types in Curate/Model, topic keys in
--   Curate/TopicKey, the parsers of `check_reply` in Curate/Check (lessons, assignments) and
--   Curate/Proposals (memories, conflicts), `consolidate` in Curate/Consolidate (versions) and
--   Curate/Response (occurrences, conflicts, the whole), and the sums of token usage in
--   Curate/Usage. A state is the `CheckResult` that the parsers pass on; an entry of a reply is
--   checked in the monad `Checked`, whose error is the violation.
-- * src/memoryos_lite/curator/graph.py is Curate/Loop.antt: extract, check, and repair while
--   there are violations and repairs left, then `consolidate`. A text with a surrogate, which
--   pydantic and UTF-8 refuse, raises where the code makes an assignment, a conflict, a memory
--   or its id (`is_encodable` in Curate/Consolidate). The fuel of the cycle is
--   `max_repairs + 1`; each round is a repair, so that is enough. Its `render_request`, with the
--   builders of src/memoryos_lite/curator/prompt.py, is Curate/Prompts.
-- * src/memoryos_lite/curator/llm.py is Client.antt, with `message_text` of chat_models.py: the
--   attempts of a call, and what is made of a response. The fuel of the loop of attempts is
--   `RETRIES + 1`, its range. `client_llm` is the client as the LLM of Curate/Loop.
-- * src/memoryos_lite/recall.py is Recall.antt: scores by fused ranks and bonuses, and the
--   selection within a budget; the cache of embeddings and the near duplicates are
--   Recall/Embedding.
-- * src/memoryos_lite/retrieval/lexical.py and src/memoryos_lite/tokenizer.py are Lexical.antt;
--   the rankings of Recall, Audit and Ask use its tokens.
-- * src/memoryos_lite/audit.py and audit_graph.py are Audit.antt.
-- * memoryos_eval/ask.py is Ask.antt: retrieve, grade and rewrite. Its fuel is `max_rounds + 1`:
--   a round ends with a retrieval, and `after_grade` stops behind `max_rounds + 1` of them.
-- * memoryos_eval/memory/store_curator.py is Session/Tables.antt, the tables as lists in a
--   record, and Session/Store.antt, a transaction as a function on it.
--   memoryos_eval/memory/session_curator.py is Session/Activities.antt (messages as the parts of
--   a curate request), Session/Window.antt (a window as a curate request, and a response as
--   writes), Session/Variables.antt and Session/Run.antt: `run_session`, whose state is the
--   variables of its loop with the store and the failures of windows. It runs the curate
--   requests of Curate/Loop. Its fuel is the number of messages and one: each round that goes on
--   consumes a message. Session/Steps has the steps that a run makes as a relation.
-- * memoryos_eval/memory/source_evidence.py is Evidence.antt (limits, and the loops that both
--   versions share), Evidence/First.antt (items, models and builder of the first version),
--   Evidence/Passages.antt and Evidence/Second.antt (those of the second). The fuel of the loop
--   that drops items is one more than the items selected.
-- * memoryos_eval/memory/retrieval/supersede.py is Supersede.antt; Ask marks outdated items with
--   it.
-- * memoryos_eval/memory/budget.py is Budget.antt.
-- * memoryos_eval/memory/archive_rag.py is Archive.antt: the fixed window splitter, and the
--   validation of spans. The fuel of the splitter is the length of the text and one: the windows
--   move on.
--
-- Prelude holds texts (lists of code points), dictionaries (association lists in insertion
-- order), sorting and loops (`each`). Json holds the values of replies.
--
-- Parameters, for code that is not part of the repository: Unicode (`str.casefold`, `\w`, with
-- the laws `FoldLaws` of the Unicode database), Floats (with the order laws `FloatLaws`),
-- Hashing (`json.dumps`, SHA-256, with the law `HashingLaws` that no surrogate is written that
-- was not given), the LLM (an answer for each call and what it is asked), its provider (a
-- response or a failure for each attempt), `raw_decode`, BM25 scores, similarities of
-- embeddings, `str.lower`, the token counts of tiktoken, the retriever of Ask, Host (ids and the
-- clock), and Canonical (canonical JSON, SHA-256, `float`, with the laws `CanonicalLaws` on the
-- form of a SHA-256).
--
-- Not modelled: the texts of violations, of the prompts for a repair, an audit and a rewrite,
-- and the system prompts (they are values that hold what the texts are built from), the
-- validation of arbitrary JSON by the models, telemetry, traces, HTTP, configuration, the tables
-- other than those of the curator, embedding providers, the context composer and the benchmarks.
-- The length bounds that the curate request declares are checked where the session curator
-- builds one, and are not part of its type.
pub mod Prelude
pub mod Unicode
pub mod Json
pub mod Floats
pub mod Grounding
pub mod Lexical
pub mod Curate
pub mod Client
pub mod Recall
pub mod Budget
pub mod Archive
pub mod Session
pub mod Supersede
pub mod Evidence
pub mod Ask
pub mod Audit
pub mod Examples
