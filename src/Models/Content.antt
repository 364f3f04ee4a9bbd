-- ===== src/Models/Content.antt =====
-- Content parts, which live inside messages, and the value objects that entries carry
-- (agent/core/models.py). Text offsets and times are natural numbers.
use luca_py.Base.{ℕ, String, Bool, Option, List}
use luca_py.Base.Dict.{Dict}
use luca_py.Models.Json.{Fields}

pub record UrlCitation : Type 0 where
  pub url : String
  pub title : String
  pub start_index : Option ℕ
  pub end_index : Option ℕ

pub record TextContent : Type 0 where
  pub text : String
  pub metadata : Fields
  pub annotations : List UrlCitation

pub record ThinkingContent : Type 0 where
  pub thinking : String
  pub id : Option String
  pub signature : Option String
  pub redacted : Bool

pub record ToolCall : Type 0 where
  pub id : String
  pub name : String
  pub arguments : Fields
  pub extras : Fields

pub record PrivateProviderContent : Type 0 where
  pub format : String
  pub payload : Fields

pub record WebPageContent : Type 0 where
  pub url : String
  pub title : Option String
  pub content : Option String
  pub extras : Fields

pub record WebSearchContent : Type 0 where
  pub queries : List String
  pub results : Option (List WebPageContent)
  pub extras : Fields

pub record WebFetchContent : Type 0 where
  pub web_page : WebPageContent
  pub extras : Fields

-- The three classes of the `MediaSource` union; the fields stand in the source's order.
pub data MediaSource : Type 0 where
  media_url : (url : String) (media_type : Option String) → MediaSource
  media_base64 : (payload : String) (media_type : String) → MediaSource
  media_file_id : (file_id : String) (media_type : Option String) → MediaSource

pub record ImageContent : Type 0 where
  pub source : MediaSource
  pub metadata : Fields

pub record AudioContent : Type 0 where
  pub source : MediaSource
  pub metadata : Fields

pub record FileContent : Type 0 where
  pub source : MediaSource
  pub name : Option String
  pub metadata : Fields

pub data ContentPart : Type 0 where
  text : TextContent → ContentPart
  image : ImageContent → ContentPart
  audio : AudioContent → ContentPart
  file : FileContent → ContentPart

pub data AssistantContentPart : Type 0 where
  text : TextContent → AssistantContentPart
  thinking : ThinkingContent → AssistantContentPart
  tool_call : ToolCall → AssistantContentPart
  private_provider : PrivateProviderContent → AssistantContentPart
  web_search : WebSearchContent → AssistantContentPart
  web_fetch : WebFetchContent → AssistantContentPart

pub record LlmConfig : Type 0 where
  pub extras : Fields
  pub model : String
  pub provider : String
  pub model_options : Fields
  pub provider_options : Fields

pub record Usage : Type 0 where
  pub conversation_id : String
  pub entry_id : String
  pub input : ℕ
  pub output : ℕ
  pub cache_read : ℕ
  pub cache_write : ℕ
  pub total_tokens : ℕ
  pub tool_requests : Dict ℕ

pub record ExecutionResult : Type 0 where
  pub content : List ContentPart
  pub structured_content : Option Fields
  pub metadata : Fields
  pub is_error : Bool
  pub extras : Fields
