-- ===== src/Projection.antt =====
-- agent/core/projection.py: durable entries as the messages of the next request. Here are the messages,
-- the errors and the conversion of content; Entries has the projection of one entry, Walk the walk of
-- a path. The client's shapes that are the agent's own (citations, pages) are the same records.
pub mod Wording
pub mod Entries
pub mod Walk
pub mod Roles
pub mod Correlation
pub mod Brackets
pub mod Resting
use luca_py.Base.{ℕ, String, Bool, Option, none, some, List, map, ◌⊎◌, inl, inr}
use luca_py.Models.Json.{Json, Fields}
use luca_py.Models.Content.{
  UrlCitation, ThinkingContent, WebPageContent, MediaSource, media_url, media_base64, media_file_id,
  ContentPart, AssistantContentPart, ImageContent, AudioContent, FileContent,
}

pub data ClientMedia : Type 0 where
  url : (url : String) (media_type : Option String) → ClientMedia
  base64 : (payload : String) (media_type : String) → ClientMedia
  file_id : (file_id : String) (media_type : Option String) → ClientMedia

pub data Block : Type 0 where
  text : String → List UrlCitation → Block
  image audio : ClientMedia → Block
  file : ClientMedia → Option String → Block
  thinking : ThinkingContent → Block
  tool_call : (id name : String) → Fields → Block
  private_provider : (format : String) → Fields → Block
  web_search : List String → Option (List WebPageContent) → Fields → Block
  web_fetch : WebPageContent → Fields → Block

pub data Message : Type 0 where
  user : List Block → Message
  assistant : List Block → (provider model : String) → Message
  tool : (tool_call_id : String) → List Block → (is_error : Bool) → Message

-- One constructor for each raise; `no_task_id` is the KeyError of a spawn payload without one.
pub data ProjectionError : Type 0 where
  missing_node unresolved_child nonterminal no_result no_spawn no_payload no_task_id
        missing_referent wrong_type no_pruned_projection :
      ProjectionError

-- What the standard library makes of values: `str`, `repr`, `json.dumps`, a value's truth, and the
-- ISO form of a time.
pub record Texts : Type 0 where
  pub str : Json → String
  pub repr : String → String
  pub dumps : Json → String
  pub truth : Json → Bool
  pub iso_utc : ℕ → String

abbrev pub media_source : MediaSource → ClientMedia
media_source (media_base64 payload media_type) = ClientMedia.base64 payload media_type
media_source (media_url address media_type) = ClientMedia.url address media_type
media_source (media_file_id id media_type) = ClientMedia.file_id id media_type

unfoldable pub content_block : ContentPart → Block
content_block (ContentPart.text part) = Block.text part.text List.[]
content_block (ContentPart.image part) = Block.image (media_source part.source)
content_block (ContentPart.audio part) = Block.audio (media_source part.source)
content_block (ContentPart.file part) = Block.file (media_source part.source) part.name

abbrev pub content_blocks : List ContentPart → List Block
content_blocks parts = map content_block parts

unfoldable pub assistant_block : AssistantContentPart → Block
assistant_block (AssistantContentPart.thinking part) = Block.thinking part
assistant_block (AssistantContentPart.tool_call part) =
    Block.tool_call part.id part.name part.arguments
assistant_block (AssistantContentPart.text part) = Block.text part.text part.annotations
assistant_block (AssistantContentPart.private_provider part) =
    Block.private_provider part.format part.payload
assistant_block (AssistantContentPart.web_search part) =
    Block.web_search part.queries part.results part.extras
assistant_block (AssistantContentPart.web_fetch part) = Block.web_fetch part.web_page part.extras
