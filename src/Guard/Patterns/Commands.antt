-- ===== src/Guard/Patterns/Commands.antt =====
-- internal/guard/patterns/commands.go.
use agent_claw.Base.{List, [], ◌∷◌}
use agent_claw.Guard.Types.{CommandPattern, on, binary, full}

-- `CommandPatterns`.
unfoldable pub command_patterns : List CommandPattern
command_patterns =
    on full "CMD-001" "recursive delete" "(?i)\\brm\\b.*(-[rRf]{1,3}|--recursive|--force)"
    ∷ on full "CMD-002" "recursive delete (reversed flags)" "(?i)\\brm\\b.*-[fFrR]*r[fFrR]*"
    ∷ on binary "CMD-003" "shred command" "^shred$"
    ∷ on full "CMD-004" "wipe with dd" "(?i)\\bdd\\b.*\\bof=/dev/"
    ∷ on binary "CMD-005" "disk format tool" "^(mkfs|fdisk|parted|wipefs)$"
    ∷ on full "CMD-010" "curl pipe to shell"
        "(?i)curl\\b.*\\|\\s*(sh|bash|zsh|dash|python|perl|ruby|node)"
    ∷ on full "CMD-011" "wget pipe to shell"
        "(?i)wget\\b.*(-O\\s*-|--output-document\\s*-)\\s*\\|\\s*(sh|bash|zsh|python)"
    ∷ on full "CMD-012" "download and execute" "(?i)(curl|wget)\\b.*&&\\s*(sh|bash|chmod\\s+\\+x)"
    ∷ on full "CMD-013" "base64 decode to shell"
        "(?i)base64\\s+(-d|--decode).*\\|\\s*(sh|bash|zsh|python)"
    ∷ on binary "CMD-020" "netcat listener" "^(nc|ncat|netcat|socat)$"
    ∷ on full "CMD-021" "reverse shell pattern" "(?i)/dev/tcp/|/dev/udp/"
    ∷ on full "CMD-022" "bash reverse shell" "(?i)bash\\s+-i\\s+>&\\s*/dev/"
    ∷ on full "CMD-023" "python reverse shell" "(?i)python.*socket\\.connect"
    ∷ on full "CMD-024" "telnet abuse" "(?i)\\btelnet\\b.*\\|\\s*/bin/"
    ∷ on binary "CMD-030" "sudo execution" "^sudo$"
    ∷ on binary "CMD-031" "su execution" "^su$"
    ∷ on full "CMD-032" "dangerous chmod"
        "(?i)\\bchmod\\b.*(777|666|\\+s|u\\+s|g\\+s|4[0-7]{3}|2[0-7]{3})"
    ∷ on full "CMD-033" "chown to root" "(?i)\\bchown\\b.*\\broot\\b"
    ∷ on full "CMD-034" "setuid binary creation" "(?i)install\\s+-m\\s*[24][0-7]{3}"
    ∷ on binary "CMD-040" "system service control" "^(systemctl|service|launchctl)$"
    ∷ on full "CMD-041" "kill init/systemd" "(?i)\\bkill\\b.*(-9|-KILL|-SIGKILL)\\s+(1|init)\\b"
    ∷ on full "CMD-042" "crontab destructive" "(?i)\\bcrontab\\b\\s+-r\\b"
    ∷ on binary "CMD-043" "shutdown/reboot" "^(shutdown|reboot|halt|poweroff|init)$"
    ∷ on full "CMD-044" "fork bomb" ":\\(\\)\\s*\\{\\s*:\\|:&\\s*\\}\\s*;"
    ∷ on full "CMD-045" "fork bomb variant" "(?i)\\bwhile\\s+true.*do.*&.*done"
    ∷ on binary "CMD-050" "firewall modification"
        "^(iptables|ip6tables|nft|ufw|firewall-cmd|pfctl)$"
    ∷ on binary "CMD-051" "network interface control" "^(ifconfig|ip|nmcli|networksetup)$"
    ∷ on full "CMD-060" "crypto miner"
        "(?i)(xmrig|minerd|ethminer|cpuminer|cgminer|bfgminer|stratum\\+tcp)"
    ∷ on full "CMD-061" "crypto wallet address in args" "(?i)--wallet\\s|--pool\\s|stratum://"
    ∷ on binary "CMD-070" "keychain dump" "^(security|credstore|secretsdump)$"
    ∷ on full "CMD-071" "ssh key generation to arbitrary path" "(?i)ssh-keygen.*-f\\s+/"
    ∷ on full "CMD-072" "read sensitive system files" "(?i)\\bcat\\b.*/etc/(passwd|shadow|sudoers)"
    ∷ on full "CMD-073" "aws credential access" "(?i)\\bcat\\b.*\\.aws/(credentials|config)"
    ∷ on binary "CMD-080" "shell interpreter (use exec.CommandContext)"
        "^(sh|bash|zsh|dash|csh|tcsh|fish|ksh|pwsh|powershell)$"
    ∷ on full "CMD-081" "eval/exec in scripting" "(?i)python\\s+-c\\s+.*(exec|eval|__import__)"
    ∷ on full "CMD-082" "perl one-liner execution" "(?i)perl\\s+-e\\s+.*system\\("
    ∷ on full "CMD-083" "ruby one-liner execution" "(?i)ruby\\s+-e\\s+.*system\\("
    ∷ on full "CMD-084" "node eval execution" "(?i)node\\s+-e\\s+.*child_process"
    ∷ on full "CMD-090" "git force push" "(?i)\\bgit\\b.*\\bpush\\b.*(-f|--force)"
    ∷ on full "CMD-091" "git reset hard" "(?i)\\bgit\\b.*\\breset\\b.*--hard"
    ∷ on full "CMD-092" "git clean force" "(?i)\\bgit\\b.*\\bclean\\b.*-[fdx]"
    ∷ on full "CMD-093" "git branch force delete" "(?i)\\bgit\\b.*\\bbranch\\b.*-D"
    ∷ on full "CMD-100" "docker privileged run" "(?i)\\bdocker\\b.*\\brun\\b.*--privileged"
    ∷ on full "CMD-101" "docker host mount" "(?i)\\bdocker\\b.*-v\\s*/:/"
    ∷ on full "CMD-102" "docker socket mount" "(?i)\\bdocker\\b.*-v.*/var/run/docker\\.sock"
    ∷ on full "CMD-103" "kubectl delete namespace/cluster"
        "(?i)\\bkubectl\\b.*\\bdelete\\b.*(namespace|ns|clusterrole)"
    ∷ on full "CMD-110" "curl POST with file upload"
        "(?i)curl\\b.*(-F|--form|--data-binary\\s+@|-T\\s)"
    ∷ on full "CMD-111" "tar + curl exfiltration" "(?i)tar\\b.*\\|\\s*curl"
    ∷ on full "CMD-112" "scp to external host" "(?i)\\bscp\\b.*@"
    ∷ on full "CMD-113" "rsync to external" "(?i)\\brsync\\b.*@.*:"
    ∷ on full "CMD-120" "fill disk with zeros" "(?i)\\bdd\\b.*if=/dev/zero"
    ∷ on full "CMD-121" "memory stress/abuse" "(?i)(stress|stress-ng|memtester)\\b"
    ∷ []
