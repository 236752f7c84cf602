-- ===== src/Util/Names.antt =====
-- pkg/util/string.go: the names for new users.
use jian_yu_server_lib.Base.{List, [], ◌∷◌}
use jian_yu_server_lib.Strings.{Str, str}

-- The names that users get at their registration
abbrev pub names : List Str
names =
    str "独角王"
    ∷ str "老鼋"
    ∷ str "灵感大王"
    ∷ str "如意真仙"
    ∷ str "蝎女妖"
    ∷ str "六耳猕猴"
    ∷ str "罗刹女"
    ∷ str "牛魔王"
    ∷ str "羊力大仙"
    ∷ str "鹿力大仙"
    ∷ str "虎力大仙"
    ∷ str "鳖龙"
    ∷ str "红孩儿"
    ∷ str "青狮道人"
    ∷ str "熊山君"
    ∷ str "特处士"
    ∷ str "玉面公主"
    ∷ str "九头虫"
    ∷ str "黄眉老祖"
    ∷ str "大蟒精"
    ∷ str "赛太岁"
    ∷ str "蜘蛛精"
    ∷ str "多目怪"
    ∷ str "青狮魔王"
    ∷ str "白象魔王"
    ∷ str "大鹏魔王"
    ∷ str "虎威魔王"
    ∷ str "狮吼魔王"
    ∷ str "狮毛怪"
    ∷ str "美后"
    ∷ str "国丈"
    ∷ str "地涌夫人"
    ∷ str "金钱豹王"
    ∷ str "黄狮精"
    ∷ str "九灵元圣"
    ∷ str "辟寒大王"
    ∷ str "辟暑大王"
    ∷ str "辟尘大王"
    ∷ str "玄鹤老"
    ∷ str "玉兔精"
    ∷ str "蠹妖"
    ∷ str "蛙怪"
    ∷ str "麋妖"
    ∷ str "古柏老"
    ∷ str "灵龟老"
    ∷ str "峰五老"
    ∷ str "赤蛇精"
    ∷ str "虺妖"
    ∷ str "蚖妖"
    ∷ str "蝮子怪"
    ∷ str "蝎小妖"
    ∷ str "狐妖"
    ∷ str "凤管娘子"
    ∷ str "鸾萧夫人"
    ∷ str "七情大王"
    ∷ str "六欲大王"
    ∷ str "三尸魔王"
    ∷ str "阴沉魔王"
    ∷ str "独角魔王"
    ∷ str "啸风魔王"
    ∷ str "兴云魔王"
    ∷ str "六耳魔王"
    ∷ str "迷识魔王"
    ∷ str "消阳魔王"
    ∷ str "铄阴魔王"
    ∷ str "耗气魔王"
    ∷ str "黑鱼精"
    ∷ str "蜂妖"
    ∷ str "灵鹊"
    ∷ str "玄武灵"
    ∷ str "美蔚君"
    ∷ str "福缘君"
    ∷ str "善庆君"
    ∷ str "孟浪魔王"
    ∷ str "慌张魔王"
    ∷ str "司视魔"
    ∷ str "司听魔"
    ∷ str "逐香魔"
    ∷ str "具体魔"
    ∷ str "驰神魔"
    ∷ str "逐味魔"
    ∷ str "千里眼"
    ∷ str "顺风耳"
    ∷ str "金童"
    ∷ str "玉女"
    ∷ str "雷公"
    ∷ str "电母"
    ∷ str "风伯"
    ∷ str "雨师"
    ∷ str "游奕灵官"
    ∷ str "翊圣真君"
    ∷ str "大力鬼王"
    ∷ str "七仙女"
    ∷ str "太白金星"
    ∷ str "赤脚大仙"
    ∷ str "嫦娥"
    ∷ str "玉兔"
    ∷ str "吴刚"
    ∷ str "猪八戒"
    ∷ str "孙悟空"
    ∷ str "唐僧"
    ∷ str "沙悟净"
    ∷ str "白龙马"
    ∷ str "九天玄女"
    ∷ str "九曜星"
    ∷ str "日游神"
    ∷ str "夜游神"
    ∷ str "太阴星君"
    ∷ str "太阳星君"
    ∷ str "武德星君"
    ∷ str "佑圣真君"
    ∷ str "李靖"
    ∷ str "金吒"
    ∷ str "木吒"
    ∷ str "哪吒"
    ∷ str "巨灵神"
    ∷ str "月老"
    ∷ str "左辅右弼"
    ∷ str "二郎神杨戬"
    ∷ str "萨真人"
    ∷ str "文昌帝君"
    ∷ str "增长天王"
    ∷ str "持国天王"
    ∷ str "多闻天王"
    ∷ str "广目天王"
    ∷ str "张道陵"
    ∷ str "许逊"
    ∷ str "邱弘济"
    ∷ str "葛洪"
    ∷ str "渔人"
    ∷ str "林黛玉"
    ∷ str "薛宝钗"
    ∷ str "贾宝玉"
    ∷ str "秦可卿"
    ∷ str "贾巧姐"
    ∷ str "王熙凤"
    ∷ str "史湘云"
    ∷ str "妙玉"
    ∷ str "李纨"
    ∷ str "贾惜春"
    ∷ str "贾探春"
    ∷ str "贾迎春"
    ∷ str "贾元春"
    ∷ str "王妈妈"
    ∷ str "西门庆"
    ∷ str "武松"
    ∷ str "武大郎"
    ∷ str "宋江"
    ∷ str "鲁智深"
    ∷ str "高俅"
    ∷ str "闻太师"
    ∷ str "卢俊义"
    ∷ str "吴用"
    ∷ str "公孙胜"
    ∷ str "关胜"
    ∷ str "林冲"
    ∷ str "秦明"
    ∷ str "呼延灼"
    ∷ str "花荣"
    ∷ str "阮小七"
    ∷ str "燕青"
    ∷ str "皇甫端"
    ∷ str "扈三娘"
    ∷ str "王英"
    ∷ str "安道全"
    ∷ str "金大坚"
    ∷ str "萧峰"
    ∷ str "段誉"
    ∷ str "童猛"
    ∷ str "陶宗旺"
    ∷ str "郑天寿"
    ∷ str "王定六"
    ∷ str "段景住"
    ∷ str "寅将军"
    ∷ str "黑熊精"
    ∷ str "白衣秀士"
    ∷ str "凌虚子"
    ∷ str "黄风怪"
    ∷ str "白骨精"
    ∷ str "奎木狼"
    ∷ str "金角大王"
    ∷ str "银角大王"
    ∷ []
