-- ===== src/Console/Labels.antt =====
-- The texts of errors: `ERROR_LABELS` and `error_text` of mihomoctl/controller/controller_types.py, and
-- `error_message` of mihomoctl/controller/controller_state.py.
use Prim.Native.String.{◌++◌}
use mihomo_userctl.Base.{String, Option, none, some, [], ◌∷◌, ◌==◌, string_eq, if◌then◌else◌}
use mihomo_userctl.Base.Dict
use mihomo_userctl.Base.Dict.{Dict}

abbrev install_command : String
install_command =
    "bash install.sh --user --python <python> --wheelhouse <wheelhouse-dir> --extras tui; Python installs: add [tui] using the original uv/pipx/pip environment"

unfoldable pub error_labels : Dict String String
error_labels =
    ("cross-level-selection-refused", "聚合组禁止直接选择叶子；先切子组再切入口。明确授权后才可使用 --allow-cross-level")
    ∷ ("selection-target-unverified", "目标身份尚未确认；刷新节点与分组后重试")
    ∷ ("validation-inputs-changed", "校验后核心或依赖资源已变化；请重新预览并保存")
    ∷ ("probe-unverified", "测速结果未确认")
    ∷ ("controller-capability-unsupported", "当前核心不支持此控制器接口")
    ∷ ("subscription-cleanup-incomplete", "预览临时材料清理失败；请检查私有目录并重新预览")
    ∷ ("ambiguous-node", "节点名称有多个来源；请指定 --provider 或在界面选择来源")
    ∷ ("node-disappeared", "节点在 provider 刷新后已消失；请刷新列表")
    ∷ ("node-not-in-core", "节点不在核心代理表中")
    ∷ ("node-unreachable", "节点存在但探测失败")
    ∷ ("delay-timeout", "探测超时")
    ∷ ("unknown-node", "未知节点；请与 mihomoctl nodes --json 中的完整名称核对")
    ∷ ("invalid-health-check-options", "必须以 group 或 provider 开头，例如 group \"Ai+\" 或 provider \"名称\"")
    ∷ (
      "textual-environment-incomplete-use-engine-curses",
      "当前解释器无法导入 textual/rich；使用 mihomoctl tui --engine curses（无需安装，t 测速），或用户私有安装："
          ++ install_command ++ "（无需 sudo 或系统 pip）",
    )
    ∷ []

abbrev pub or_empty : Option String → String
or_empty none = ""
or_empty (some s) = s

-- `ERROR_LABELS.get(code, "")`
unfoldable pub label_of : String → String
unfolding error_labels
label_of code = or_empty (Dict.get error_labels code)

abbrev bracketed : String → String
bracketed s = "（" ++ s ++ "）"

abbrev labelled : Option String → String
labelled none = ""
labelled (some s) = bracketed s

abbrev detailed : String → String
detailed s = if s == "" then "" else ": " ++ s

unfoldable pub error_text : String → String → String
unfolding error_labels
error_text code detail = code ++ labelled (Dict.get error_labels code) ++ detailed detail

-- What is known of an operation that failed.
pub record OperationState : Type 0 where
  pub phase : Option String
  pub config : Option String
  pub runtime : Option String

abbrev unconfirmed : String
unconfirmed = "未确认"

abbrev named : Dict String String → Option String → String
named table none = unconfirmed
named table (some key) = elim (Dict.get table key) [ none ↦ unconfirmed | some s ↦ s ]

abbrev phases : Dict String String
phases =
    ("validate", "校验")
    ∷ ("save", "写入")
    ∷ ("activate", "启动或重启")
    ∷ ("commit", "提交")
    ∷ ("recover", "恢复")
    ∷ ("cleanup", "清理临时材料")
    ∷ []

abbrev configs : Dict String String
configs =
    ("restored", "已恢复原配置，新配置未提交")
    ∷ ("committed", "新配置已提交")
    ∷ ("changed", "配置已变化，请重新检查")
    ∷ ("unverified", "未确认")
    ∷ []

abbrev runtimes : Dict String String
runtimes = ("running", "仍在运行") ∷ ("stopped", "已停止") ∷ ("unverified", "未确认") ∷ []

abbrev state_text : Option OperationState → String
state_text none = ""
state_text (some s) =
    "；失败阶段："
    ++ named phases s.phase
    ++ "；配置："
    ++ named configs s.config
    ++ "；核心："
    ++ named runtimes s.runtime

-- `Snapshot.error_message`, of its error, its label, the detail and the state of the operation
unfoldable pub error_message : String → String → String → Option OperationState → String
error_message error label detail state =
    error ++ (if label == "" then "" else bracketed label) ++ detailed detail ++ state_text state
